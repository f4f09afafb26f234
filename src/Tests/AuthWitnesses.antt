-- ===== src/Tests/AuthWitnesses.antt =====
-- The theorems on the HTTP guard of package auth, on discovery and on the secret client, applied.
use maintainerd_sdk.Prelude.{
  ℕ, true, ◌≡◌, refl, List, [], ◌∷◌, none, some, Slice, Result, ok, err, if◌then◌else◌,
}
use maintainerd_sdk.Text.{Bytes, codes, ◌==◌}
use maintainerd_sdk.Text.Maps.{lookup}
use maintainerd_sdk.Auth.{
  GoError, str, Verifier, TokenLibrary, string_claim, claims_of, accept_token, parser_options,
  verify, scope_among, has_scope,
}
use maintainerd_sdk.Auth.Bearer.{Request, Reply, served, bearer, middleware, require_scope}
use maintainerd_sdk.Auth.Protected.{IsServed, middleware-IsServed_iff}
use maintainerd_sdk.Auth.Discovery.{
  Provider, Answer, answered, unsent, drop_slashes, trim_right_slashes, discovery_url,
  read_document, discover,
}
use maintainerd_sdk.Auth.Discovery.Document.{IsFound, discover-IsFound_iff}
use maintainerd_sdk.Client.Secret.{SecretService}
use maintainerd_sdk.Client.Secret.Programs.{
  Methods, client, Program, done, call_put, call_get, run, Agree, Implements, run-Implements,
}
use maintainerd_sdk.Tests.Env.{ascii_only, run_text}

-- A library that reads one claim map from every token.
abbrev lenient : TokenLibrary
lenient = record {
  Keys = Unit;
  new_keys = λ url. ok tt;
  parse = λ keys options token.
      ok (record { claims = some ((codes "scope", str (codes "read write")) ∷ []); valid = true });
}

abbrev verifier : Verifier lenient
verifier = record { jwks = tt; issuer = []; audience = [] }

abbrev request : Request
request = record { authorization = codes "Bearer t"; claims = none }

abbrev greet : Request → Reply Bytes
greet r = served (codes "hello")

greeted :
    middleware lenient verifier (require_scope (codes "write") greet) request
    ≡ served (codes "hello")
unfolding run_text bearer middleware require_scope has_scope scope_among verify parser_options
    accept_token claims_of string_claim lookup
greeted = refl

middleware-IsServed_iff_example :
    IsServed lenient verifier (codes "write") greet request (codes "hello")
middleware-IsServed_iff_example =
    (middleware-IsServed_iff lenient verifier (codes "write") greet request (codes "hello")).0
      greeted

abbrev provider : Provider
provider = record {
  issuer = codes "https://a";
  authorization_endpoint = [];
  token_endpoint = codes "https://a/token";
  jwks_uri = codes "https://a/jwks";
  userinfo_endpoint = [];
  end_session_endpoint = [];
}

abbrev document_at : Bytes → Answer
document_at url =
    if url == codes "https://a/.well-known/openid-configuration"
    then answered 200 (ok provider)
    else unsent (codes "no such host")

provider_found : discover document_at (codes "https://a//") ≡ ok provider
unfolding run_text drop_slashes trim_right_slashes discovery_url read_document discover
provider_found = refl

discover-IsFound_iff_example : IsFound document_at (codes "https://a//") provider
discover-IsFound_iff_example =
    (discover-IsFound_iff document_at (codes "https://a//") provider).0 provider_found

-- A store of one value, which counts its calls, and its specification, which does not.
abbrev Cell : Type 0
Cell = Slice ℕ × List (Unit {0})

abbrev counting : SecretService Cell
counting = record {
  ping = λ w. (ok (record { setup_complete = true }), (w.0, tt ∷ w.1));
  setup = λ q w. (err (codes "set up"), (w.0, tt ∷ w.1));
  put = λ q w. (ok tt, (q.value, tt ∷ w.1));
  get = λ k w. (ok (record { value = w.0 }), (w.0, tt ∷ w.1));
  list = λ p w. (ok (record { keys = none }), (w.0, tt ∷ w.1));
  delete = λ k w. (ok tt, (none, tt ∷ w.1));
}

abbrev cell : Methods (Slice ℕ)
cell = record {
  ping = λ v. (ok true, v);
  setup = λ b o v. (err (codes "set up"), v);
  put = λ k x v. (ok tt, x);
  get = λ k v. (ok v, v);
  list = λ p v. (ok none, v);
  delete = λ k v. (ok tt, none);
}

abbrev Holds : Cell → Slice ℕ → Type 0
Holds w v = w.0 ≡ v

counting-Implements : Implements Holds counting cell
counting-Implements = record {
  ping = λ w v r. (refl, r);
  setup = λ b o w v r. (refl, r);
  put = λ k x w v r. (refl, refl);
  get = λ k w v r. (r, r);
  list = λ p w v r. (refl, r);
  delete = λ k w v r. (refl, refl);
}

-- Writes a secret and reads it back.
abbrev write_read : Program (Result GoError (Slice ℕ))
write_read = call_put (codes "db") (some (codes "pw")) (λ r. call_get (codes "db") (λ x. done x))

abbrev no_calls : Cell
no_calls = (none, [])

run-Implements_example :
    Agree Holds (run (client counting) write_read no_calls) (run cell write_read none)
run-Implements_example =
    run-Implements Holds counting cell write_read no_calls none counting-Implements refl
