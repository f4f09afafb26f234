-- ===== src/Tests/ClientWitnesses.antt =====
-- The theorems on tokens and credentials, applied.
use maintainerd_sdk.Prelude.{
  ℕ, ◌≤◌, ◌<◌, ◌*◌, ◌/◌, ◌≡◌, ◌↔◌, Result, none, refl, ◌≢◌, [], ◌∷◌, some, ok, arith,
}
use maintainerd_sdk.Text.{Bytes, codes}
use maintainerd_sdk.Client.Tokens.{
  answered, TokenResponse, HttpClient, second, token_ttl, post_token,
}
use maintainerd_sdk.Client.Tokens.Endpoint.{token_ttl_exact}
use maintainerd_sdk.Client.Tokens.Granted.{Fetches, IsGranted, client_credentials-IsGranted_iff}
use maintainerd_sdk.Client.Credentials.{Credentials}
use maintainerd_sdk.Auth.{GoError}
use maintainerd_sdk.Client.Assertion.{
  KeyLibrary, epoch, sign_client_assertion, PrivateKeyConfig, parse_rsa_private_key,
  private_key_form, fetch_signed, private_key_jwt,
}
use maintainerd_sdk.Client.Assertion.Asserted.{
  FetchesSigned, IsAsserted, private_key_jwt-IsAsserted,
}
use maintainerd_sdk.Client.Sdk.{SdkConfig, new_client}
use maintainerd_sdk.Client.Sdk.Wiring.{dialled, IsWired, new_client-IsWired}
use maintainerd_sdk.Tests.Data.{token_library}
use maintainerd_sdk.Tests.Env.{run_text}
use maintainerd_sdk.Prelude.{All}
use maintainerd_sdk.Text.Maps.{GoMap, lookup}
use maintainerd_sdk.Text.Space.Fields.{IsWord}
use maintainerd_sdk.Auth.{Any, str, string_claim, claims_of}
use maintainerd_sdk.Client.Tokens.{
  ClientCredentialsConfig, client_credentials_form, client_credentials,
}
use maintainerd_sdk.Client.Tokens.Scopes.{requested_scopes}
use maintainerd_sdk.Tests.Env.{ascii_only}

abbrev tok : Bytes
tok = codes "tok"

abbrev response : TokenResponse
response = record { access_token = tok; expires_in = 60; error = []; error_desc = [] }

abbrev endpoint_up : HttpClient
endpoint_up url form = answered 200 response

-- The first lifetime that overflows.
token_ttl_exact_example :
    (0 < token_ttl 9223372037)
    × (token_ttl 9223372037 < 9223372036854775808)
    × ((token_ttl 9223372037 ≡ 9223372037 * second)
        ↔ ((0 < 9223372037) × (9223372037 ≤ 9223372036)))
token_ttl_exact_example = token_ttl_exact 9223372037

-- A library whose only key signs by the token identifier.
abbrev key_library : KeyLibrary
key_library = record {
  Key = Unit;
  pem_block = λ pem. some pem;
  parse_pkcs1 = λ block. ok tt;
  parse_pkcs8 = λ block. ok none;
  sign = λ key c. ok c.iss;
}

abbrev now : ℕ
now = 63000000000 * second

after_epoch : epoch ≤ now / second
after_epoch = omega arith

abbrev signing : PrivateKeyConfig
signing = record {
  token_endpoint = codes "https://auth/token";
  client_id = codes "core";
  private_key_pem = codes "pem";
  key_id = codes "k1";
  audience = [];
  scopes = codes "secret:admin" ∷ [];
}

signing-FetchesSigned :
    FetchesSigned key_library endpoint_up signing (ok (1 ∷ [])) now tok (60 * second)
unfolding run_text post_token token_ttl private_key_jwt fetch_signed sign_client_assertion
    parse_rsa_private_key private_key_form
signing-FetchesSigned = (fetch_signed key_library endpoint_up signing tt, refl, refl)

private_key_jwt-IsAsserted_example :
    IsAsserted key_library endpoint_up signing (ok (1 ∷ [])) tok (60 * second)
private_key_jwt-IsAsserted_example =
    private_key_jwt-IsAsserted key_library endpoint_up signing (ok (1 ∷ [])) now tok (60 * second)
      after_epoch signing-FetchesSigned

-- A client of both services whose key set cannot be prepared, over connections known by address.
abbrev half_up : SdkConfig (Unit {0})
half_up = record {
  credentials = none;
  secret_addr = codes "localhost:9092";
  auth_jwks_url = codes "down";
  auth_issuer = [];
  auth_audience = [];
}

abbrev by_address : Credentials (Unit {0}) → Bytes → Result GoError Bytes
by_address creds addr = ok addr

new_client-IsWired_example :
    IsWired token_library Bytes by_address half_up
      (dialled token_library Bytes by_address half_up)
      (new_client token_library Bytes by_address half_up)
new_client-IsWired_example = new_client-IsWired token_library Bytes by_address half_up

abbrev reads_and_writes : ClientCredentialsConfig
reads_and_writes = record {
  token_endpoint = codes "https://auth/token";
  client_id = codes "c";
  client_secret = codes "s";
  audience = codes "secret";
  scopes = codes "secret:read" ∷ codes "secret:write" ∷ [];
}

abbrev granted_claims : GoMap Any
granted_claims = (codes "scope", str (codes "secret:read secret:write")) ∷ []

words : All IsWord reads_and_writes.scopes
words = ground arith

two_scopes : reads_and_writes.scopes ≢ []
two_scopes = ground arith

scope_asked :
    lookup (codes "scope") (client_credentials_form reads_and_writes)
    ≡ some (string_claim granted_claims (codes "scope"))
unfolding run_text lookup client_credentials_form string_claim
scope_asked = refl

requested_scopes_example : (claims_of granted_claims).scopes ≡ reads_and_writes.scopes
requested_scopes_example =
    requested_scopes reads_and_writes granted_claims words two_scopes scope_asked

reads_and_writes-Fetches : Fetches endpoint_up reads_and_writes tok (60 * second)
unfolding run_text post_token token_ttl client_credentials client_credentials_form
reads_and_writes-Fetches = (
  λ u.
      post_token endpoint_up (codes "https://auth/token")
        (client_credentials_form reads_and_writes),
  refl,
  refl,
)

client_credentials-IsGranted_iff_example : IsGranted endpoint_up reads_and_writes tok (60 * second)
client_credentials-IsGranted_iff_example =
    (client_credentials-IsGranted_iff endpoint_up reads_and_writes tok (60 * second)).0
      reads_and_writes-Fetches
