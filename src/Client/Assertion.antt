-- ===== src/Client/Assertion.antt =====
-- tokensource.go: the private_key_jwt grant, whose client signs an assertion. The PEM and RSA
-- packages and the JWT signer are a parameter.
pub mod Signed
pub mod Asserted
use maintainerd_sdk.Prelude.{
  ℕ, ◌+◌, ◌-◌, ◌*◌, ◌/◌, ◌%◌, ◌||◌, Bool, List, [], ◌∷◌, ◌++◌, Option, none, some, Result, ok, err,
  ltb, map_err, ◌>>=◌, if◌then◌else◌,
}
use maintainerd_sdk.Text.{Bytes, codes, ◌==◌}
use maintainerd_sdk.Auth.{GoError}
use maintainerd_sdk.Client.Tokens.{
  Time, Duration, second, TokenError, unassured, Form, HttpClient, optional_entries, post_token,
}

-- `jwt.MapClaims` of the assertion, with its header's "kid".
pub record Claims : Type 0 where
  pub iss : Bytes
  pub sub : Bytes
  pub aud : Bytes
  pub jti : Bytes
  pub iat : ℕ
  pub exp : ℕ
  pub kid : Option Bytes

-- Packages pem, x509 and jwt; a PKCS#8 key that is not RSA is `none`.
pub record KeyLibrary : Type 1 where
  pub Key : Type 0
  pub pem_block : Bytes → Option Bytes
  pub parse_pkcs1 : Bytes → Result GoError Key
  pub parse_pkcs8 : Bytes → Result GoError (Option Key)
  pub sign : Key → Claims → Result GoError Bytes

abbrev hex_digit : ℕ → ℕ
hex_digit n = if ltb n 10 then b'0' + n else b'a' + (n - 10)

-- `hex.EncodeToString`
unfoldable pub hex : Bytes → Bytes
hex [] = []
hex (c ∷ s) = hex_digit (c / 16) ∷ hex_digit (c % 16) ∷ hex s

-- The seconds from the zero time to 1970.
abbrev pub epoch : ℕ
epoch = 62135596800

-- `Time.Unix`, for a clock that is not before 1970.
abbrev pub unix : Time → ℕ
unix now = now / second - epoch

abbrev kid_header : Bytes → Option Bytes
kid_header kid = if kid == [] then none else some kid

abbrev pub assertion : Bytes → Bytes → Bytes → Bytes → Time → Claims
assertion client_id token_endpoint kid jti now = record {
  iss = client_id;
  sub = client_id;
  aud = token_endpoint;
  jti = hex jti;
  iat = unix now;
  exp = unix (now + 300 * second);
  kid = kid_header kid;
}

module _ (L : KeyLibrary) where
  -- `signClientAssertion`, with what `rand.Read` gives and the clock.
  unfoldable pub sign_client_assertion :
      L.Key → Bytes → Bytes → Bytes → Result GoError Bytes → Time → Result GoError Bytes
  sign_client_assertion key client_id token_endpoint kid random now = elim random [
    | err e ↦ err e
    | ok jti ↦ L.sign key (assertion client_id token_endpoint kid jti now)
  ]

  unfoldable pub parse_pkcs8_key : Bytes → Result GoError L.Key
  parse_pkcs8_key block = elim (L.parse_pkcs8 block) [
    | err e ↦ err (codes "sdk: parse private key: " ++ e)
    | ok none ↦ err (codes "sdk: private key is not RSA")
    | ok (some key) ↦ ok key
  ]

  unfoldable pub parse_rsa_private_key : Bytes → Result GoError L.Key
  parse_rsa_private_key pem_bytes = elim (L.pem_block pem_bytes) [
    | none ↦ err (codes "sdk: no PEM block in private key")
    | some block ↦ elim (L.parse_pkcs1 block) [ ok key ↦ ok key | err e ↦ parse_pkcs8_key block ]
  ]

pub record PrivateKeyConfig : Type 0 where
  pub token_endpoint : Bytes
  pub client_id : Bytes
  pub private_key_pem : Bytes
  pub key_id : Bytes
  pub audience : Bytes
  pub scopes : List Bytes

unfoldable pub private_key_form : PrivateKeyConfig → Bytes → Form
private_key_form cfg signed =
    (codes "grant_type", codes "client_credentials")
    ∷ (
      codes "client_assertion_type",
      codes "urn:ietf:params:oauth:client-assertion-type:jwt-bearer",
    )
    ∷ (codes "client_assertion", signed)
    ∷ optional_entries cfg.audience cfg.scopes

module _ (L : KeyLibrary) (hc : HttpClient) where
  -- The fetch function of `PrivateKeyJWT`, for a key that was parsed.
  unfoldable pub fetch_signed :
      PrivateKeyConfig → L.Key → Result GoError Bytes → Time → Result TokenError (Bytes × Duration)
  fetch_signed cfg key random now =
      elim (sign_client_assertion L key cfg.client_id cfg.token_endpoint cfg.key_id random now) [
        | err e ↦ err (unassured e)
        | ok signed ↦ post_token hc cfg.token_endpoint (private_key_form cfg signed)
      ]

  unfoldable pub private_key_jwt :
      PrivateKeyConfig
      → Result GoError (Result GoError Bytes → Time → Result TokenError (Bytes × Duration))
  private_key_jwt cfg =
      if cfg.token_endpoint == [] || (cfg.client_id == [] || cfg.private_key_pem == [])
      then err (codes "sdk: PrivateKeyJWT requires TokenEndpoint, ClientID and PrivateKeyPEM")
      else elim (parse_rsa_private_key L cfg.private_key_pem) [
        | err e ↦ err e
        | ok key ↦ ok (fetch_signed cfg key)
      ]
