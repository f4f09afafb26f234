-- ===== src/Authz/Transport/Enforcement.antt =====
-- What the HTTP middleware and the gRPC interceptors let through to a handler.
use maintainerd_sdk.Prelude.{
  ◌≡◌, refl, sym, ◌∙◌, inl, inr, true, false, none, some, arith, Result, err, Bool-cases,
}
use maintainerd_sdk.Text.{Bytes, Unicode}
use maintainerd_sdk.Auth.Bearer.{bearer}
use maintainerd_sdk.Authz.Principal.{Principal, has_action}
use maintainerd_sdk.Authz.Surface.{Surface}
use maintainerd_sdk.Authz.Permissions.{is_exempt}
use maintainerd_sdk.Authz.Guard.{Guard, Context, Denial, Verdict}
use maintainerd_sdk.Authz.Guard.Ladder.{Admits, Refuses}
use maintainerd_sdk.Authz.Guard.Admission.{Outcome, check-Outcome}
use maintainerd_sdk.Authz.Transport.{
  Request, surface_from_request, Reply, refused, served, write_error, with_principal, new_context,
  act_on, require_permission, bearer_from_metadata, Status, status_of, grpc_surface, middleware,
  unary_interceptor, ServerStream, principal_stream, stream_interceptor, from_context,
}

module _ ⦃u : Unicode⦄ (g : Guard) (ctx : Context) (s : Surface) (token : Bytes) where
  -- A reply is the handler's on what was sent, the handler's on what carries the admitted principal,
  -- or the refusal of the guard.
  pub data Enforces {A D : Type 0} (refuse : Denial → D) (plain : A) (carry : Principal → A)
      (serve : A → D) (reply : D) : Type 0 where
    exempt :
        is_exempt g.permissions s ≡ true
        → reply ≡ serve plain
        → Enforces refuse plain carry serve reply
    admitted :
        (p : Principal)
        → Admits g ctx s token p
        → reply ≡ serve (carry p)
        → Enforces refuse plain carry serve reply
    turned_away :
        (d : Denial)
        → Refuses g ctx s token d
        → reply ≡ refuse d
        → Enforces refuse plain carry serve reply

  act_on-Enforces :
      {A D : Type 0} (refuse : Denial → D) (plain : A) (carry : Principal → A) (serve : A → D)
      (v : Verdict)
      → Outcome g ctx s token v
      → Enforces refuse plain carry serve (act_on v refuse plain carry serve)
  act_on-Enforces refuse plain carry serve (none, none) h = Enforces.exempt h refl
  act_on-Enforces refuse plain carry serve (some p, none) h = Enforces.admitted p h refl
  act_on-Enforces refuse plain carry serve (none, some d) h = Enforces.turned_away d h refl
  act_on-Enforces refuse plain carry serve (some p, some d) h = absurd h

module _ ⦃u : Unicode⦄ {R : Type 0} (g : Guard) where
  -- The middleware serves a request as it came only on an exempt path; else it serves it with the
  -- principal that the ladder admits in its context, or writes the ladder's refusal and runs no
  -- handler.
  pub middleware-Enforces :
      (next : Request → Reply R) (r : Request)
      → Enforces g r.context
          (surface_from_request r)
          (bearer r.authorization)
          (λ d. refused (write_error g d))
          r
          (with_principal r)
          next
          (middleware g next r)
  unfolding middleware
  middleware-Enforces next r =
      act_on-Enforces g r.context (surface_from_request r) (bearer r.authorization) _ r
        (with_principal r) next _
        (check-Outcome g r.context (surface_from_request r) (bearer r.authorization))

  -- The unary interceptor runs a handler in the caller's own context only for an exempt method, and
  -- else in the context that carries the admitted principal, or it returns the ladder's status.
  pub unary_interceptor-Enforces :
      (full_method : Bytes) (handler : Context → Result Status R) (ctx : Context)
      → Enforces g ctx
          (grpc_surface full_method)
          (bearer_from_metadata ctx)
          (λ d. err (status_of d))
          ctx
          (λ p. new_context ctx (some p))
          handler
          (unary_interceptor g full_method handler ctx)
  unfolding unary_interceptor
  unary_interceptor-Enforces full_method handler ctx =
      act_on-Enforces g ctx (grpc_surface full_method) (bearer_from_metadata ctx) _ ctx _ handler _
        (check-Outcome g ctx (grpc_surface full_method) (bearer_from_metadata ctx))

  -- The stream interceptor does the same with the stream's context, and leaves the stream itself.
  pub stream_interceptor-Enforces :
      {S : Type 0} (full_method : Bytes) (handler : ServerStream S → Result Status R)
      (ss : ServerStream S)
      → Enforces g ss.context
          (grpc_surface full_method)
          (bearer_from_metadata ss.context)
          (λ d. err (status_of d))
          ss
          (principal_stream ss)
          handler
          (stream_interceptor g full_method handler ss)
  unfolding stream_interceptor
  stream_interceptor-Enforces full_method handler ss =
      act_on-Enforces g ss.context (grpc_surface full_method) (bearer_from_metadata ss.context) _ ss
        _ handler _
        (check-Outcome g ss.context (grpc_surface full_method) (bearer_from_metadata ss.context))

  required_of_served :
      (action : Bytes) (next : Request → Reply R) (r : Request) (p : Principal) (x : R)
      → require_permission action next (with_principal r p) ≡ served x
      → (has_action (some p) action ≡ true) × (next (with_principal r p) ≡ served x)
  required_of_served action next r p x h = elim (Bool-cases (has_action (some p) action)) [
    | inl held ↦ (held, unfold require_permission from_context new_context in ground arith)
    | inr missing ↦ absurd (unfold require_permission from_context new_context in ground arith)
  ]

  -- Behind the middleware and `RequirePermission` a handler of a path that is not exempt answers only
  -- for a principal that the ladder admits and that holds the action on some resource, and it is
  -- that principal that it finds in its context.
  pub protected_handler :
      (action : Bytes) (next : Request → Reply R) (r : Request) (x : R)
      → is_exempt g.permissions (surface_from_request r) ≡ false
      → middleware g (require_permission action next) r ≡ served x
      → (p : Principal) × Admits g r.context (surface_from_request r) (bearer r.authorization) p
        × (has_action (some p) action ≡ true)
        × (next (with_principal r p) ≡ served x)
  protected_handler action next r x guarded h =
      elim (middleware-Enforces (require_permission action next) r) [
        | Enforces.exempt e same ↦ absurd (cc)
        | Enforces.turned_away d k e ↦ absurd (ground arith)
        | Enforces.admitted p a e ↦
            let (held, answer) = required_of_served action next r p x (sym e ∙ h) in
            (p, a, held, answer)
      ]
