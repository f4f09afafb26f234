-- ===== src/Tests/TransportWitnesses.antt =====
-- The theorems on the transports, applied.
use maintainerd_sdk.Prelude.{◌≡◌, refl, false}
use maintainerd_sdk.Text.{Bytes, codes}
use maintainerd_sdk.Authz.Permissions.{is_exempt}
use maintainerd_sdk.Authz.Transport.{
  Request, Reply, served, surface_from_request, require_permission, middleware,
}
use maintainerd_sdk.Prelude.{ok, arith}
use maintainerd_sdk.Auth.{Verifier}
use maintainerd_sdk.Authz.Guard.{Guard}
use maintainerd_sdk.Authz.Startup.{resolve_guard}
use maintainerd_sdk.Authz.Startup.Ladder.{IsConfigured, enforcing}
use maintainerd_sdk.Authz.Startup.Streams.{IsStreamed, stream-IsStreamed_iff}
use maintainerd_sdk.Authz.Transport.{ServerStream, stream_interceptor}
use maintainerd_sdk.Prelude.{ℕ}
use maintainerd_sdk.Authz.Startup.Service.{IsAnswered, middleware-IsAnswered_iff}
use maintainerd_sdk.Tests.Data.{config, token_library, table}
use maintainerd_sdk.Prelude.{[], ◌∷◌, some, Result}
use maintainerd_sdk.Authz.Guard.{Context}
use maintainerd_sdk.Authz.Permissions.{Map}
use maintainerd_sdk.Authz.Transport.{Status, status_of, new_context, grpc_surface}
use maintainerd_sdk.Authz.Transport.Enforcement.{Enforces}
use maintainerd_sdk.Client.Credentials.Attached.{received, presented}
use maintainerd_sdk.Client.Tokens.{TokenError}
use maintainerd_sdk.Prelude.{err}
use maintainerd_sdk.Client.Credentials.{
  TokenAnswer, Outgoing, static_token, attach, unary_creds_interceptor,
}
use maintainerd_sdk.Client.Credentials.Guarded.{call, call_with, call_with-Enforces}
use maintainerd_sdk.Client.Credentials.Booted.{IsReached, call-IsReached_iff}
use maintainerd_sdk.Prelude.{◌*◌}
use maintainerd_sdk.Client.Tokens.{
  second, HttpClient, answered, unsent, ClientCredentialsConfig, post_token, client_credentials,
  client_credentials_form, Cache, empty_cache, token, token_ttl,
}
use maintainerd_sdk.Client.Credentials.Session.{
  Rpc, Source, perform, Session, IsEarned, perform-IsEarned,
}
use maintainerd_sdk.Tests.Env.{ascii_only, run_text, run_authz}
use maintainerd_sdk.Tests.Data.{no_context}

abbrev request : Request
request = record {
  path = codes "/api/v1/secrets/1";
  method = codes "GET";
  authorization = codes "Bearer good";
  context = no_context;
}

-- A handler that answers with the verb of the request.
abbrev echo : Request → Reply Bytes
echo r = served r.method

abbrev verifier : Verifier token_library
verifier = record { jwks = tt; issuer = codes "https://auth"; audience = codes "secret" }

abbrev booted : Guard
booted = enforcing token_library config table verifier

config-IsConfigured : IsConfigured config
unfolding run_authz
config-IsConfigured = ground arith

config_boots : resolve_guard token_library config table ≡ ok booted
unfolding run_authz
config_boots = refl

request_guarded : is_exempt booted.permissions (surface_from_request request) ≡ false
unfolding run_authz
request_guarded = refl

request_answered :
    middleware booted (require_permission (codes "secret:read") echo) request ≡ served (codes "GET")
unfolding run_authz
request_answered = refl

middleware-IsAnswered_iff_example :
    IsAnswered token_library config booted (codes "secret:read") echo request (codes "GET")
middleware-IsAnswered_iff_example =
    (middleware-IsAnswered_iff token_library config booted table (codes "secret:read") echo request
        (codes "GET") config-IsConfigured config_boots request_guarded).0
      request_answered

-- The service with a gRPC method, called with the token "good".
abbrev get_method : Bytes
get_method = codes "/secret.v1.SecretService/Get"

abbrev grpc_table : Map
grpc_table = record table { methods = (get_method, codes "secret:read") ∷ [] }

abbrev grpc_booted : Guard
grpc_booted = enforcing token_library config grpc_table verifier

grpc_boots : resolve_guard token_library config grpc_table ≡ ok grpc_booted
unfolding run_authz
grpc_boots = refl

get_method_guarded : is_exempt grpc_booted.permissions (grpc_surface get_method) ≡ false
unfolding run_authz
get_method_guarded = refl

-- A handler that answers with the subject of the caller in its context.
abbrev who : Context → Result Status Bytes
who ctx = elim ctx.principal [ some (some p) ↦ ok p.subject | _ ↦ ok [] ]

get_method_answers :
    (call grpc_booted get_method (static_token (codes "good")) tt who).0 ≡ ok (codes "u1")
unfolding run_authz unary_creds_interceptor attach
get_method_answers = refl

call-IsReached_iff_example :
    IsReached token_library config grpc_booted get_method
      (static_token (codes "good"))
      tt
      who
      (codes "u1")
call-IsReached_iff_example =
    (call-IsReached_iff token_library config grpc_booted grpc_table get_method
        (static_token (codes "good")) tt who (codes "u1") config-IsConfigured grpc_boots
        get_method_guarded).0
      get_method_answers

-- A stream of numbered messages, with the token "good" in its metadata.
abbrev good_stream : ServerStream ℕ
good_stream = record { stream = 7; context = received (codes "Bearer good" ∷ []) }

abbrev who_streams : ServerStream ℕ → Result Status Bytes
who_streams ss = who ss.context

good_stream_answers :
    stream_interceptor grpc_booted get_method who_streams good_stream ≡ ok (codes "u1")
unfolding run_authz
good_stream_answers = refl

stream-IsStreamed_iff_example :
    IsStreamed token_library config grpc_booted get_method who_streams good_stream (codes "u1")
stream-IsStreamed_iff_example =
    (stream-IsStreamed_iff token_library config grpc_booted grpc_table get_method who_streams
        good_stream (codes "u1") config-IsConfigured grpc_boots get_method_guarded).0
      good_stream_answers

abbrev failing : TokenAnswer
failing = err (TokenError.token_request (codes "connection refused"))

-- Credentials that fail, on a call that carries a token of its own.
abbrev own_token : Outgoing
own_token = codes "Bearer good" ∷ []

abbrev own_context : Context
own_context = received (attach failing own_token)

call_with-Enforces_example :
    Enforces grpc_booted own_context
      (grpc_surface get_method)
      (presented failing own_token)
      (λ d. err (status_of d))
      own_context
      (λ p. new_context own_context (some p))
      who
      (call_with grpc_booted get_method (λ w. (failing, w)) tt own_token who).0
call_with-Enforces_example =
    call_with-Enforces grpc_booted get_method (λ w. (failing, w)) tt own_token who

-- Two calls ten seconds apart: the endpoint grants a token to the first, and is down at the second.
abbrev source : ClientCredentialsConfig
source = record {
  token_endpoint = codes "https://auth/token";
  client_id = codes "core";
  client_secret = codes "s";
  audience = [];
  scopes = [];
}

abbrev fetch : Source
fetch hc u = post_token hc source.token_endpoint (client_credentials_form source)

fetch_made : (hc : HttpClient) → client_credentials hc source ≡ ok (fetch hc)
unfolding client_credentials run_text
fetch_made hc = refl

abbrev first_rpc : Rpc Bytes
first_rpc = record {
  service = grpc_booted;
  full_method = get_method;
  handler = who;
  asked = 100 * second;
  stored = 101 * second;
  endpoint = λ url form.
      answered 200
        (record { access_token = codes "good"; expires_in = 60; error = []; error_desc = [] });
}

abbrev second_rpc : Rpc Bytes
second_rpc = record {
  service = grpc_booted;
  full_method = get_method;
  handler = who;
  asked = 110 * second;
  stored = 111 * second;
  endpoint = λ url form. unsent (codes "connection refused");
}

abbrev after_first : Cache
after_first = (perform fetch first_rpc empty_cache).1

after_first-Session : Session fetch (first_rpc ∷ []) after_first
after_first-Session = Session.performed first_rpc Session.opened

second_answered : (perform fetch second_rpc after_first).0 ≡ ok (codes "u1")
unfolding run_authz unary_creds_interceptor attach token post_token token_ttl
second_answered = refl

perform-IsEarned_example :
    IsEarned fetch token_library config source (first_rpc ∷ []) second_rpc (codes "u1")
perform-IsEarned_example =
    perform-IsEarned fetch token_library config source (first_rpc ∷ []) second_rpc (codes "u1")
      fetch_made grpc_table after_first after_first-Session config-IsConfigured grpc_boots
      get_method_guarded second_answered
