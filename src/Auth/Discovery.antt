-- ===== src/Auth/Discovery.antt =====
-- auth/discovery.go: the endpoints of an issuer, read from its discovery document. The HTTP client
-- and the JSON decoder are a parameter.
pub mod Document
use maintainerd_sdk.Prelude.{
  ℕ, Bool, not, [], ◌∷◌, ◌++◌, reverse, Result, ok, err, byte_eq, if◌then◌else◌,
}
use maintainerd_sdk.Text.{Bytes, codes, ◌==◌}
use maintainerd_sdk.Text.Space.{trim_space}
use maintainerd_sdk.Auth.{GoError}

pub record Provider : Type 0 where
  pub issuer : Bytes
  pub authorization_endpoint : Bytes
  pub token_endpoint : Bytes
  pub jwks_uri : Bytes
  pub userinfo_endpoint : Bytes
  pub end_session_endpoint : Bytes

-- What comes of one GET: each way in which the libraries fail, or a status and the body decoded.
pub data Answer : Type 0 where
  unbuilt unsent : GoError → Answer
  answered : ℕ → Result GoError Provider → Answer

-- The errors by the place that makes them.
pub data DiscoveryError : Type 0 where
  issuer_required : DiscoveryError
  bad_request undecoded : GoError → DiscoveryError
  unreachable : Bytes → GoError → DiscoveryError
  unexpected_status : Bytes → ℕ → DiscoveryError

-- Slashes at the front of a text that is read from its end.
unfoldable pub drop_slashes : Bytes → Bytes
drop_slashes [] = []
drop_slashes (c ∷ s) = let rest = drop_slashes s in if byte_eq c b'/' then rest else c ∷ s

-- `strings.TrimRight(s, "/")`
unfoldable pub trim_right_slashes : Bytes → Bytes
trim_right_slashes s = reverse (drop_slashes (reverse s))

abbrev pub well_known : Bytes
well_known = codes "/.well-known/openid-configuration"

unfoldable pub discovery_url : Bytes → Bytes
discovery_url issuer = trim_right_slashes issuer ++ well_known

-- The document of a status.
unfoldable pub read_document : Bytes → ℕ → Result GoError Provider → Result DiscoveryError Provider
read_document url status body =
    if not (byte_eq status 200)
    then err (unexpected_status url status)
    else elim body [ err e ↦ err (undecoded e) | ok p ↦ ok p ]

-- `Discover`
unfoldable pub discover : (Bytes → Answer) → Bytes → Result DiscoveryError Provider
discover get issuer =
    if trim_space issuer == [] then err issuer_required else elim (get (discovery_url issuer)) [
      | unbuilt e ↦ err (bad_request e)
      | unsent e ↦ err (unreachable (discovery_url issuer) e)
      | answered status body ↦ read_document (discovery_url issuer) status body
    ]
