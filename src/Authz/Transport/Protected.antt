-- ===== src/Authz/Transport/Protected.antt =====
-- A handler behind `Middleware` and `RequirePermission`: exactly when it answers.
use maintainerd_sdk.Prelude.{◌≡◌, true, some}
use maintainerd_sdk.Text.{Bytes, Unicode}
use maintainerd_sdk.Auth.Bearer.{bearer}
use maintainerd_sdk.Authz.Principal.{Principal, has_action}
use maintainerd_sdk.Authz.Guard.{Guard, admit, check}
use maintainerd_sdk.Authz.Guard.Ladder.{Admits}
use maintainerd_sdk.Authz.Guard.Admission.{check-Admits_iff}
use maintainerd_sdk.Authz.Transport.{
  Request, surface_from_request, Reply, served, with_principal, new_context, from_context,
  require_permission, middleware,
}

module _ ⦃u : Unicode⦄ {R : Type 0} (g : Guard) (action : Bytes) (next : Request → Reply R)
    (r : Request) (x : R) where
  -- The ladder admits a principal that holds the action, and the handler answers that principal.
  abbrev pub IsProtected : Type 0
  IsProtected =
      (p : Principal) × Admits g r.context (surface_from_request r) (bearer r.authorization) p
      × (has_action (some p) action ≡ true)
      × (next (with_principal r p) ≡ served x)

  pub protected_complete : IsProtected → middleware g (require_permission action next) r ≡ served x
  unfolding middleware require_permission from_context new_context
  protected_complete (p, a, held, answer) =
      let admitted : check g r.context (bearer r.authorization) (surface_from_request r) ≡ admit p =
        (check-Admits_iff g r.context (surface_from_request r) (bearer r.authorization) p).1 a in
      rw (admitted, held) answer
