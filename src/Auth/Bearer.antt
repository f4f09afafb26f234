-- ===== src/Auth/Bearer.antt =====
-- `bearer` of auth/verifier.go and `Bearer` of authz/guard.go, which are the same function, and the
-- HTTP guard of package auth.
use maintainerd_sdk.Prelude.{
  ℕ, Bool, true, not, ◌&&◌, [], Option, none, some, ok, err, ltb, length, take, drop, if◌then◌else◌,
}
use maintainerd_sdk.Text.{Bytes, codes, ◌==◌, equal_fold}
use maintainerd_sdk.Text.Space.{trim_space}
use maintainerd_sdk.Auth.{Claims, TokenLibrary, Verifier, verify, has_scope}

unfoldable pub bearer : Bytes → Bytes
bearer header =
    if ltb 7 (length header) && equal_fold (take 7 header) (codes "bearer ")
    then trim_space (drop 7 header)
    else []

-- A request by its Authorization header and the claims in its context.
pub record Request : Type 0 where
  pub authorization : Bytes
  pub claims : Option Claims

-- `auth.FromContext`
abbrev pub from_context : Request → Option Claims
from_context r = r.claims

-- What the client receives: a refusal of a guard, or what the handler makes of the request.
pub data Reply {ℓ} (R : Type ℓ) : Type ℓ where
  refused : ℕ → Bytes → Reply R
  served : R → Reply R

abbrev lacks_scope : Option Claims → Bytes → Bool
lacks_scope none scope = true
lacks_scope (some c) scope = not (has_scope c scope)

module _ {ℓ} {R : Type ℓ} where
  -- `Verifier.Middleware`
  unfoldable pub middleware :
      (L : TokenLibrary) → Verifier L → (Request → Reply R) → Request → Reply R
  middleware L v next r =
      let token = bearer r.authorization in
      if token == []
      then refused 401 (codes "{\"error\":\"missing bearer token\"}")
      else elim (verify L v token) [
        | err e ↦ refused 401 (codes "{\"error\":\"invalid token\"}")
        | ok claims ↦ next (record r { claims = some claims })
      ]

  -- `RequireScope`
  unfoldable pub require_scope : Bytes → (Request → Reply R) → Request → Reply R
  require_scope scope next r =
      if lacks_scope (from_context r) scope
      then refused 403 (codes "{\"error\":\"insufficient scope\"}")
      else next r
