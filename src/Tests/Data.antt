-- ===== src/Tests/Data.antt =====
-- A small service, its table, its callers and a token library that knows two tokens.
use maintainerd_sdk.Prelude.{true, false, List, [], ◌∷◌, none, some, ok, err, if◌then◌else◌}
use maintainerd_sdk.Text.{Bytes, codes, ◌==◌}
use maintainerd_sdk.Text.Maps.{GoMap}
use maintainerd_sdk.Mrn.{Mrn, Pattern}
use maintainerd_sdk.Auth.{Any, str, arr, nil, cons, TokenLibrary}
use maintainerd_sdk.Authz.Grant.{Grant}
use maintainerd_sdk.Authz.Principal.{Principal, actor_kind_user}
use maintainerd_sdk.Authz.Surface.{Surface, Rule, Perms}
use maintainerd_sdk.Authz.Permissions.{Map}
use maintainerd_sdk.Authz.Guard.{Context, Guard, VerifyFunc, enforced}
use maintainerd_sdk.Authz.Startup.{Config}
use maintainerd_sdk.Tests.Env.{ascii_only}

abbrev pub billing : Mrn
billing = record {
  service = codes "secret";
  tenant = codes "acme";
  project = codes "billing";
  resource_path = codes "secret/prod/url/DSN:5432";
}

abbrev pub billing_text : Bytes
billing_text = codes "mrn:secret:acme:billing:secret/prod/url/DSN:5432"

abbrev pub acme : Pattern
acme = record {
  service = codes "secret";
  tenant = codes "acme";
  project = codes "*";
  resource_path = codes "secret/prod/*";
}

abbrev pub acme_text : Bytes
acme_text = codes "mrn:secret:acme:*:secret/prod/*"

abbrev pub reads_acme : Grant
reads_acme = record { action = codes "secret:read"; resource = acme_text }

abbrev pub principal_with : List Grant → Principal
principal_with grants = record {
  subject = codes "u1";
  kind = actor_kind_user;
  tenant = codes "acme";
  scopes = [];
  grants = grants;
  blanket_actions = none;
}

abbrev pub reader : Principal
reader = principal_with (reads_acme ∷ [])

abbrev pub secret_rule : Rule
secret_rule = record { permission = codes "secret:read"; actor = 0 }

abbrev pub secret_perms : Perms
secret_perms = record {
  read = codes "secret:read";
  write = codes "secret:write";
  read_actor = 0;
  write_actor = 0;
}

abbrev pub table : Map
table = record {
  prefix = codes "/api/v1/";
  exact = [];
  routes = (codes "secrets", secret_perms) ∷ [];
  methods = [];
  method_actors = [];
  operation_permissions = [];
  blanket_actions = some (codes "secret:admin" ∷ []);
  exempt_paths = codes "/healthz" ∷ [];
  exempt_methods = [];
  exempt = none;
  route_key = none;
}

abbrev pub get_secret : Surface
get_secret = record {
  path = codes "/api/v1/secrets/1";
  http_method = codes "GET";
  full_method = [];
}

abbrev pub put_secret : Surface
put_secret = record get_secret { http_method = codes "PUT" }

abbrev pub no_context : Context
no_context = record { principal = none; incoming_authorization = none }

-- Knows the token "good" as the reader.
abbrev pub knows_good : VerifyFunc
knows_good ctx token = if token == codes "good" then ok (some reader) else err (codes "bad")

abbrev pub guard : Guard
guard = record {
  mode = enforced;
  verify = some knows_good;
  permissions = table;
  resource = some (λ ctx s. some billing_text);
  service = codes "secret";
  reason = [];
  dev_open_warnings = [];
  write_error = none;
}

abbrev pub granted_reader : Principal
granted_reader = record reader { blanket_actions = some (codes "secret:admin" ∷ []) }

abbrev pub config : Config
config = record {
  jwks_url = codes "https://auth/jwks";
  issuer = codes " https://auth ";
  audience = codes "secret";
  development = false;
  service = codes "secret";
  dev_open_warnings = [];
}

-- The claims of the token "good".
abbrev pub good_claims : GoMap Any
good_claims =
    (codes "sub", str (codes "u1"))
    ∷ (codes "permissions", arr (cons (str (codes "secret:read")) nil))
    ∷ []

abbrev pub token_library : TokenLibrary
token_library = record {
  Keys = Unit;
  new_keys = λ url. if url == codes "down" then err (codes "unreachable") else ok tt;
  parse = λ keys options token.
      if token == codes "good"
      then ok (record { claims = some good_claims; valid = true })
      else err (codes "bad signature");
}
