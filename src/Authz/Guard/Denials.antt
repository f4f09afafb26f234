-- ===== src/Authz/Guard/Denials.antt =====
-- What a refusal tells the caller.
use mathlib.Core.List.{Memᴰ}
use mathlib.Core.Option.{some-injective}
use maintainerd_sdk.Prelude.{
  ◌≡◌, refl, sym, ap, true, false, ◌∙◌, ◌≢◌, ◌⊎◌, inl, inr, [], ◌++◌, append-nil, none, some, ok,
  Bool-cases,
}
use maintainerd_sdk.Text.{Bytes, codes, Unicode}
use maintainerd_sdk.Authz.Surface.{Surface, Rule, actor_permits}
use maintainerd_sdk.Authz.Permissions.{is_exempt, resolve, declared_permissions}
use maintainerd_sdk.Authz.Permissions.Drift.{resolve-declared}
use maintainerd_sdk.Authz.Principal.{Principal, allows}
use maintainerd_sdk.Authz.Guard.{
  unavailable, Denial, Guard, Context, VerifyFunc, deny, forbidden, code_unavailable,
  code_unauthenticated, code_permission_denied, deny_unmapped_surface, deny_actor_kind,
  deny_insufficient, deny_auth_unavailable, deny_missing_token, deny_invalid_token,
  unavailable_denial, check,
}
use maintainerd_sdk.Authz.Guard.Ladder.{
  IsAuthenticating, IsCaller, IsPermitted, IsForbidden, Fails, Refuses,
}
use maintainerd_sdk.Authz.Guard.Complete.{authenticating_check, rejected_token}
use maintainerd_sdk.Authz.Guard.Admission.{check-Refuses_iff, check-exempt_iff}

module _ ⦃u : Unicode⦄ (g : Guard) (ctx : Context) (s : Surface) (token : Bytes) where
  -- The status, the gRPC code and the stable code of a denial belong together, and say what happened.
  pub data IsConsistent (d : Denial) : Type 0 where
    unable :
        d.http_status ≡ 503
        → d.grpc_code ≡ code_unavailable
        → d.code ≡ deny_auth_unavailable
        → (g.mode ≡ unavailable) ⊎ (g.verify ≡ none)
        → IsConsistent d
    missing :
        d.http_status ≡ 401
        → d.grpc_code ≡ code_unauthenticated
        → d.code ≡ deny_missing_token
        → token ≡ []
        → IsConsistent d
    invalid :
        d.http_status ≡ 401
        → d.grpc_code ≡ code_unauthenticated
        → d.code ≡ deny_invalid_token
        → token ≢ []
        → (verifier : VerifyFunc) → g.verify ≡ some verifier
        → ((p : Principal) → verifier ctx token ≢ ok (some p))
        → IsConsistent d
    unmapped :
        d.http_status ≡ 403
        → d.grpc_code ≡ code_permission_denied
        → d.code ≡ deny_unmapped_surface
        → (p : Principal) → IsCaller g ctx token p
        → resolve g.permissions s ≡ none
        → IsConsistent d
    wrong_class :
        d.http_status ≡ 403
        → d.grpc_code ≡ code_permission_denied
        → d.code ≡ deny_actor_kind
        → (p : Principal) → IsCaller g ctx token p
        → (rule : Rule) → resolve g.permissions s ≡ some rule
        → actor_permits rule.actor p.kind ≡ false
        → IsConsistent d
    insufficient :
        d.http_status ≡ 403
        → d.grpc_code ≡ code_permission_denied
        → d.code ≡ deny_insufficient
        → (p : Principal) → IsCaller g ctx token p
        → (rule : Rule) → resolve g.permissions s ≡ some rule
        → actor_permits rule.actor p.kind ≡ true
        → ¬ IsPermitted g ctx s rule.permission p
        → Memᴰ rule.permission (declared_permissions g.permissions)
        → (target : Bytes) → d.message ≡ codes "requires permission " ++ (rule.permission ++ target)
        → IsConsistent d

module _ ⦃u : Unicode⦄ (g : Guard) (ctx : Context) (s : Surface) where
  -- A permission that the ladder finds missing is not held.
  IsForbidden-not-IsPermitted :
      (required : Bytes) (p : Principal) (d : Denial)
      → required ≢ []
      → IsForbidden g ctx s required p d
      → ¬ IsPermitted g ctx s required p
  IsForbidden-not-IsPermitted required p d named f (IsPermitted.open_rule e) = named e
  IsForbidden-not-IsPermitted required p d named (IsForbidden.on_target t at no_ same)
        (IsPermitted.on_target t' at' held) =
      let one : t ≡ t' = some-injective t t' (sym at ∙ at') in
      let held' : allows (some p) required t ≡ true = ap (allows (some p) required) one ∙ held in cc
  IsForbidden-not-IsPermitted required p d named (IsForbidden.on_target t at no_ same)
        (IsPermitted.by_action e held) =
      cc
  IsForbidden-not-IsPermitted required p d named (IsForbidden.by_action e no_ same)
        (IsPermitted.on_target t at held) =
      cc
  IsForbidden-not-IsPermitted required p d named (IsForbidden.by_action e no_ same)
        (IsPermitted.by_action e' held) =
      cc

  -- The message names the permission.
  IsForbidden-message :
      (required : Bytes) (p : Principal) (d : Denial)
      → IsForbidden g ctx s required p d
      → (target : Bytes) × (d
          ≡ forbidden deny_insufficient (codes "requires permission " ++ (required ++ target)))
  IsForbidden-message required p d (IsForbidden.on_target t at no_ same) = (codes " on " ++ t, same)
  IsForbidden-message required p d (IsForbidden.by_action e no_ same) = ([], rw append-nil same)

  Fails-IsConsistent :
      (token : Bytes) (p : Principal) (d : Denial)
      → IsCaller g ctx token p
      → Fails g ctx s p d
      → IsConsistent g ctx s token d
  Fails-IsConsistent token p d c (Fails.unmapped e same) =
      rw same (IsConsistent.unmapped refl refl refl p c e)
  Fails-IsConsistent token p d c (Fails.wrong_class rule e wrong same) =
      rw same (IsConsistent.wrong_class refl refl refl p c rule e wrong)
  Fails-IsConsistent token p d c (Fails.insufficient rule e class named h) =
      let (target, same) = IsForbidden-message rule.permission p d h in
      IsConsistent.insufficient (ap (λ (x : Denial). x.http_status) same)
        (ap (λ (x : Denial). x.grpc_code) same) (ap (λ (x : Denial). x.code) same) p c rule e class
        (IsForbidden-not-IsPermitted rule.permission p d named h)
        (resolve-declared g.permissions s rule e named) target (ap (λ (x : Denial). x.message) same)

  -- Whatever `Check` refuses with, the HTTP status, the gRPC code and the stable code agree and say
  -- what happened. It is 503 where the service cannot authenticate, by its mode or for want of a
  -- verifier; 401 where the token is missing, or is present and the verifier accepts it as nobody;
  -- and 403 for a verified caller, as unmapped where the surface has no rule, as the wrong class
  -- where its rule does not accept the caller's class, and as insufficient where it does, and the
  -- caller does not hold its permission. That permission is a declared one, and stands in the
  -- message.
  pub check-IsConsistent :
      (token : Bytes) (d : Denial) → check g ctx token s ≡ deny d → IsConsistent g ctx s token d
  unfolding unavailable_denial
  check-IsConsistent token d h = elim ((check-Refuses_iff g ctx s token d).0 h) [
    | Refuses.closed guarded m same ↦ rw same (IsConsistent.unable refl refl refl (inl m))
    | Refuses.unconfigured guarded m absent same ↦
        rw same (IsConsistent.unable refl refl refl (inr absent))
    | Refuses.anonymous guarded m v configured absent same ↦
        rw same (IsConsistent.missing refl refl refl absent)
    | Refuses.rejected guarded m v configured presented nobody same ↦
        rw same (IsConsistent.invalid refl refl refl presented v configured nobody)
    | Refuses.failed guarded m p c f ↦ Fails-IsConsistent token p d c f
  ]

  -- Two tokens that the verifier does not accept get the same verdict, whatever each failed by: a
  -- forger learns nothing from the answer.
  rejected_indistinct :
      (t t' : Bytes) (verifier : VerifyFunc)
      → IsAuthenticating g.mode
      → g.verify ≡ some verifier
      → t ≢ []
      → t' ≢ []
      → ((p : Principal) → verifier ctx t ≢ ok (some p))
      → ((p : Principal) → verifier ctx t' ≢ ok (some p))
      → check g ctx t s ≡ check g ctx t' s
  rejected_indistinct t t' verifier m configured here here' nobody nobody' =
      elim (Bool-cases (is_exempt g.permissions s)) [
        | inl exempt ↦
            (check-exempt_iff g ctx s t).1 exempt ∙ sym ((check-exempt_iff g ctx s t').1 exempt)
        | inr guarded ↦
            authenticating_check g ctx s t guarded m
            ∙ rejected_token g ctx s t verifier configured here nobody
            ∙ sym (
                authenticating_check g ctx s t' guarded m
                ∙ rejected_token g ctx s t' verifier configured here' nobody')
      ]
