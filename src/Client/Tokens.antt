-- ===== src/Client/Tokens.antt =====
-- tokensource.go: the cached token source, the form of a client-credentials grant, and the answer of
-- a token endpoint. The HTTP client is a parameter.
pub mod Step
pub mod Fresh
pub mod Concurrent
pub mod Endpoint
pub mod Scopes
pub mod Granted
use maintainerd_sdk.Prelude.{
  ℕ, ◌+◌, ◌-◌, ◌*◌, ◌/◌, ◌%◌, Bool, true, false, not, ◌&&◌, ◌||◌, List, [], ◌∷◌, ◌++◌, Option, none,
  some, Result, ok, err, ltb, leb, byte_eq, if◌then◌else◌,
}
use maintainerd_sdk.Text.{Bytes, codes, ◌==◌, join}
use maintainerd_sdk.Text.Maps.{GoMap}
use maintainerd_sdk.Auth.{GoError}

-- Nanoseconds: an instant counts from the zero `time.Time`, a duration is not negative.
abbrev pub Time : Type 0
Time = ℕ

abbrev pub Duration : Type 0
Duration = ℕ

abbrev pub second : Duration
second = 1000000000

-- `expires_in` is the two's complement of the 64-bit `int`.
pub record TokenResponse : Type 0 where
  pub access_token : Bytes
  pub expires_in : ℕ
  pub error : Bytes
  pub error_desc : Bytes

-- The errors by the place that makes them; a library's error by its text.
pub data TokenError : Type 0 where
  bad_request token_request token_decode unassured : GoError → TokenError
  rejected_message : Bytes → TokenError
  rejected_status : ℕ → TokenError

-- What comes of one POST of a form: each way in which the libraries fail, or an answer decoded.
pub data Exchange : Type 0 where
  unbuilt unsent undecoded : GoError → Exchange
  answered : ℕ → TokenResponse → Exchange

abbrev pub Form : Type 0
Form = GoMap Bytes

abbrev pub HttpClient : Type 0
HttpClient = Bytes → Form → Exchange

-- The message of a rejected request.
unfoldable pub rejection : ℕ → TokenResponse → TokenError
rejection status tr =
    let msg =
      if not (tr.error_desc == []) then tr.error ++ (codes ": " ++ tr.error_desc) else tr.error in
    if msg == [] then rejected_status status else rejected_message msg

-- `time.Duration(tr.ExpiresIn) * time.Second`, wrapped to 64 bits, and the default if it is not
-- positive.
unfoldable pub token_ttl : ℕ → Duration
token_ttl expires_in =
    let ttl = (expires_in * second) % 18446744073709551616 in
    if byte_eq ttl 0 || leb 9223372036854775808 ttl then 300 * second else ttl

unfoldable pub post_token : HttpClient → Bytes → Form → Result TokenError (Bytes × Duration)
post_token hc endpoint form = elim (hc endpoint form) [
  | unbuilt e ↦ err (bad_request e)
  | unsent e ↦ err (token_request e)
  | undecoded e ↦ err (token_decode e)
  | answered status tr ↦
      if not (byte_eq status 200) || tr.access_token == []
      then err (rejection status tr)
      else ok (tr.access_token, token_ttl tr.expires_in)
]

pub record ClientCredentialsConfig : Type 0 where
  pub token_endpoint : Bytes
  pub client_id : Bytes
  pub client_secret : Bytes
  pub audience : Bytes
  pub scopes : List Bytes

abbrev pub is_none : List Bytes → Bool
is_none [] = true
is_none (x ∷ xs) = false

-- The optional entries of both grants.
abbrev pub optional_entries : Bytes → List Bytes → Form
optional_entries audience scopes =
    (if not (audience == []) then (codes "audience", audience) ∷ [] else [])
    ++ (if not (is_none scopes) then (codes "scope", join scopes (codes " ")) ∷ [] else [])

unfoldable pub client_credentials_form : ClientCredentialsConfig → Form
client_credentials_form cfg =
    (codes "grant_type", codes "client_credentials")
    ∷ (codes "client_id", cfg.client_id)
    ∷ (codes "client_secret", cfg.client_secret)
    ∷ optional_entries cfg.audience cfg.scopes

-- `ClientCredentials`: the fetch function of the source, or the error for a missing field.
unfoldable pub client_credentials :
    HttpClient
    → ClientCredentialsConfig
    → Result GoError (Unit {0} → Result TokenError (Bytes × Duration))
client_credentials hc cfg =
    if cfg.token_endpoint == [] || (cfg.client_id == [] || cfg.client_secret == [])
    then err (codes "sdk: ClientCredentials requires TokenEndpoint, ClientID and ClientSecret")
    else ok (λ u. post_token hc cfg.token_endpoint (client_credentials_form cfg))

-- The fields of `cachedTokenSource` that change; the mutex makes calls follow one another.
pub record Cache : Type 0 where
  pub token : Bytes
  pub exp : Time

abbrev pub empty_cache : Cache
empty_cache = record { token = []; exp = 0 }

-- One call of `Token`: the clock when it asks, the answer of `fetch` if it is called, and the clock
-- when the answer is stored.
pub record Call : Type 0 where
  pub asked : Time
  pub answer : Result TokenError (Bytes × Duration)
  pub stored : Time

abbrev pub refresh_margin : Duration → Duration
refresh_margin ttl = if leb ttl (30 * second) then ttl / 2 else 30 * second

-- `cachedTokenSource.Token`
unfoldable pub token : Call → Cache → Result TokenError Bytes × Cache
token call c =
    if not (c.token == []) && ltb call.asked c.exp then (ok c.token, c) else elim call.answer [
      | err e ↦ (err e, c)
      | ok (tok, ttl) ↦
          (ok tok, record { token = tok; exp = call.stored + (ttl - refresh_margin ttl) })
    ]
