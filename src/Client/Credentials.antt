-- ===== src/Client/Credentials.antt =====
-- credentials.go: the fixed credentials, and the client's interceptor that attaches a token to a call.
pub mod Attached
pub mod Guarded
pub mod Booted
pub mod Session
use maintainerd_sdk.Prelude.{
  Bool, true, false, not, ◌&&◌, List, [], ◌∷◌, ◌++◌, Option, none, some, Result, ok, err,
  if◌then◌else◌,
}
use maintainerd_sdk.Text.{Bytes, codes, ◌==◌}
use maintainerd_sdk.Client.Tokens.{TokenError}

-- What `Credentials.Token` returns for one call.
abbrev pub TokenAnswer : Type 0
TokenAnswer = Result TokenError Bytes

-- The interface `Credentials`: a call of `Token` answers, and may change the world, such as a cache.
abbrev pub Credentials : Type 0 → Type 0
Credentials W = W → TokenAnswer × W

module _ {W : Type 0} where
  -- `StaticToken.Token`
  abbrev pub static_token : Bytes → Credentials W
  static_token t w = (ok t, w)

  -- `Anonymous.Token`
  abbrev pub anonymous : Credentials W
  anonymous w = (ok [], w)

-- The "authorization" values of a call's outgoing metadata.
abbrev pub Outgoing : Type 0
Outgoing = List Bytes

unfoldable pub attach : TokenAnswer → Outgoing → Outgoing
attach (err e) outgoing = outgoing
attach (ok tok) outgoing =
    if not (tok == []) then outgoing ++ (codes "Bearer " ++ tok) ∷ [] else outgoing

-- `unaryCredsInterceptor`, for credentials that may be nil; the invoker takes the outgoing metadata
-- and the world after the credentials were asked.
unfoldable pub unary_creds_interceptor {ℓ} :
    {W : Type 0} {R : Type ℓ} → Option (Credentials W) → (Outgoing → W → R) → Outgoing → W → R
unary_creds_interceptor none invoker outgoing w = invoker outgoing w
unary_creds_interceptor (some creds) invoker outgoing w =
    let (answer, w') = creds w in invoker (attach answer outgoing) w'
