-- ===== src/Authz/Transport.antt =====
-- authz/guard.go: the HTTP middleware and the gRPC interceptors around `Guard.Check`.
pub mod Enforcement
pub mod Protected
use maintainerd_sdk.Prelude.{
  Bool, true, false, not, List, [], ◌∷◌, ◌++◌, Option, none, some, Result, ok, err, ℕ,
  if◌then◌else◌,
}
use maintainerd_sdk.Text.{Bytes, codes, Unicode}
use maintainerd_sdk.Auth.Bearer.{bearer}
use maintainerd_sdk.Authz.Principal.{Principal, has_action}
use maintainerd_sdk.Authz.Surface.{Surface}
use maintainerd_sdk.Authz.Guard.{
  Context, Guard, Denial, GrpcCode, HttpError, Verdict, deny_insufficient, check,
}

unfoldable pub from_context : Context → Option (Option Principal)
from_context ctx = ctx.principal

unfoldable pub new_context : Context → Option Principal → Context
new_context ctx p = record ctx { principal = some p }

-- An HTTP request: its path, verb, Authorization header and context.
pub record Request : Type 0 where
  pub path : Bytes
  pub method : Bytes
  pub authorization : Bytes
  pub context : Context

unfoldable pub surface_from_request : Request → Surface
surface_from_request r = record { path = r.path; http_method = r.method; full_method = [] }

-- What the client receives: an error of the guard, or what the handler makes of the request.
pub data Reply {ℓ} (R : Type ℓ) : Type ℓ where
  refused : HttpError → Reply R
  served : R → Reply R

unfoldable pub write_json_error : ℕ → Bytes → Bytes → HttpError
write_json_error status code message = record { status = status; code = code; message = message }

unfoldable pub write_error : Guard → Denial → HttpError
write_error g d = elim g.write_error [
  | some write ↦ write d.http_status d.code d.message
  | none ↦ write_json_error d.http_status d.code d.message
]

abbrev pub with_principal : Request → Principal → Request
with_principal r p = record r { context = new_context r.context (some p) }

-- Acts on a verdict: the error, the request as it is, or the request with the principal in it.
abbrev pub act_on {ℓ κ} :
    {A : Type ℓ} {D : Type κ} → Verdict → (Denial → D) → A → (Principal → A) → (A → D) → D
act_on (p, some d) refuse plain carry serve = refuse d
act_on (none, none) refuse plain carry serve = serve plain
act_on (some p, none) refuse plain carry serve = serve (carry p)

-- `(*Principal, bool)` as `RequirePermission` tests it.
abbrev lacks_action : Option (Option Principal) → Bytes → Bool
lacks_action none action = true
lacks_action (some p) action = not (has_action p action)

module _ {ℓ} {R : Type ℓ} where
  -- `RequirePermission`
  unfoldable pub require_permission : Bytes → (Request → Reply R) → Request → Reply R
  require_permission action next r =
      if lacks_action (from_context r.context) action
      then refused (write_json_error 403 deny_insufficient (codes "requires permission " ++ action))
      else next r

-- `BearerFromMetadata`: the first "authorization" value of the incoming metadata.
unfoldable pub bearer_from_metadata : Context → Bytes
bearer_from_metadata ctx = elim ctx.incoming_authorization [
  | none ↦ []
  | some [] ↦ []
  | some (v ∷ vs) ↦ bearer v
]

-- `status.Error`
pub record Status : Type 0 where
  pub code : GrpcCode
  pub message : Bytes

abbrev pub status_of : Denial → Status
status_of d = record { code = d.grpc_code; message = d.message }

abbrev pub grpc_surface : Bytes → Surface
grpc_surface full_method = record { path = []; http_method = []; full_method = full_method }

module _ {ℓ} ⦃u : Unicode⦄ {R : Type ℓ} (g : Guard) where
  -- `Guard.Middleware`
  unfoldable pub middleware : (Request → Reply R) → Request → Reply R
  middleware next r =
      act_on (check g r.context (bearer r.authorization) (surface_from_request r))
        (λ d. refused (write_error g d)) r (with_principal r) next

  -- `Guard.HTTPMiddleware`, a middleware as a value.
  unfoldable pub http_middleware : (Request → Reply R) → Request → Reply R
  http_middleware = λ next. middleware next

  -- `Guard.UnaryInterceptor`, for a handler of a context; the request goes through unread.
  unfoldable pub unary_interceptor : Bytes → (Context → Result Status R) → Context → Result Status R
  unary_interceptor full_method handler ctx =
      act_on (check g ctx (bearer_from_metadata ctx) (grpc_surface full_method))
        (λ d. err (status_of d)) ctx (λ p. new_context ctx (some p)) handler

-- `grpc.ServerStream`, by its context and the stream itself.
pub record ServerStream (S : Type 0) : Type 0 where
  pub stream : S
  pub context : Context

-- `principalStream` overrides `Context` and keeps the rest.
unfoldable pub principal_stream : {S : Type 0} → ServerStream S → Principal → ServerStream S
principal_stream ss p = record ss { context = new_context ss.context (some p) }

module _ ⦃u : Unicode⦄ {S : Type 0} {R : Type 0} (g : Guard) where
  -- `Guard.StreamInterceptor`
  unfoldable pub stream_interceptor :
      Bytes → (ServerStream S → Result Status R) → ServerStream S → Result Status R
  stream_interceptor full_method handler ss =
      act_on (check g ss.context (bearer_from_metadata ss.context) (grpc_surface full_method))
        (λ d. err (status_of d)) ss (λ p. principal_stream ss p) handler
