-- ===== src/Authz/Guard/Admission.antt =====
-- `Guard.Check` computes the ladder.
use maintainerd_sdk.Prelude.{
  ◌≡◌, refl, sym, ◌∙◌, ◌≢◌, ◌↔◌, ◌⊎◌, inl, inr, true, false, [], ◌++◌, none, some, arith, ok,
  Bool-cases, Option-cases, Result-cases,
}
use mathlib.Core.Path.{subst}
use maintainerd_sdk.Text.{Bytes, codes, ◌==◌, Unicode}
use maintainerd_sdk.Text.Laws.{eq_iff}
use maintainerd_sdk.Authz.Principal.{Principal, allows, has_action}
use maintainerd_sdk.Authz.Surface.{Surface, Rule, actor_permits}
use maintainerd_sdk.Authz.Permissions.{resolve, is_exempt}
use maintainerd_sdk.Authz.Guard.{
  Mode, enforced, dev_open, unavailable, unnamed, Denial, Guard, Context, Verdict, VerifyFunc,
  admit, deny, forbidden, deny_insufficient, deny_unmapped_surface, deny_actor_kind,
  unmapped_message, actor_message, no_verifier, missing_token, unavailable_denial, resolve_target,
  with_blanket, dev_principal, check_permission, check_surface, check,
}
use maintainerd_sdk.Authz.Guard.Complete.{
  caller_token, authenticating_check, rejected_token, check-Admits, check-Refuses,
}
use maintainerd_sdk.Authz.Guard.Ladder.{
  IsAuthenticating, IsCaller, IsPermitted, IsForbidden, Passes, Fails, Admits, Refuses,
}

-- A verdict on a caller that is known, or on a request.
abbrev Judged : (Principal → Type 0) → (Denial → Type 0) → Verdict → Type 0
Judged Yes No (some p, none) = Yes p
Judged Yes No (none, some d) = No d
Judged Yes No (none, none) = ⊥
Judged Yes No (some p, some d) = ⊥

lacking : Bytes → Denial
lacking required = forbidden deny_insufficient (codes "requires permission " ++ required)

lacking_on : Bytes → Bytes → Denial
lacking_on required target =
    forbidden deny_insufficient
      (codes "requires permission " ++ (required ++ (codes " on " ++ target)))

Mode-cases : (m : Mode) → (m ≡ dev_open) ⊎ ((m ≡ unavailable) ⊎ IsAuthenticating m)
Mode-cases enforced = ground arith
Mode-cases dev_open = ground arith
Mode-cases unavailable = ground arith
Mode-cases (unnamed n) = ground arith

module _ ⦃u : Unicode⦄ (g : Guard) (ctx : Context) (s : Surface) where
  Judged-rule :
      (p : Principal) (rule : Rule)
      → resolve g.permissions s ≡ some rule
      → actor_permits rule.actor p.kind ≡ true
      → (rule.permission == []) ≡ false
      → (v : Verdict)
      → Judged
          (λ q. (q ≡ p) × IsPermitted g ctx s rule.permission p)
          (IsForbidden g ctx s rule.permission p)
          v
      → Judged (λ q. (q ≡ p) × Passes g ctx s p) (Fails g ctx s p) v
  Judged-rule p rule e class closed (some q, none) (same, h) =
      (same, record { rule = rule; mapped = e; class = class; permitted = h })
  Judged-rule p rule e class closed (none, some d) h =
      Fails.insufficient rule e class (ground (arith, eq_iff rule.permission [])) h
  Judged-rule p rule e class closed (none, none) h = h
  Judged-rule p rule e class closed (some q, some d) h = h

  permission-Judged :
      (required : Bytes) (p : Principal)
      → Judged
          (λ q. (q ≡ p) × IsPermitted g ctx s required p)
          (IsForbidden g ctx s required p)
          (check_permission g ctx s required p)
  permission-Judged required p = elim (Option-cases (resolve_target g.resource ctx s)) [
    | inr (target, e) ↦ elim (Bool-cases (allows (some p) required target)) [
      | inl held ↦
          let v : check_permission g ctx s required p ≡ admit p =
            unfold check_permission in ground arith in
          rw v (refl, IsPermitted.on_target target e held)
      | inr missing ↦
          let v : check_permission g ctx s required p ≡ deny (lacking_on required target) =
            unfold check_permission lacking_on in ground arith in
          rw v (IsForbidden.on_target target e missing (unfold lacking_on in refl))
    ]
    | inl e ↦ elim (Bool-cases (has_action (some p) required)) [
      | inl held ↦
          let v : check_permission g ctx s required p ≡ admit p =
            unfold check_permission in ground arith in
          rw v (refl, IsPermitted.by_action e held)
      | inr missing ↦
          let v : check_permission g ctx s required p ≡ deny (lacking required) =
            unfold check_permission lacking in ground arith in
          rw v (IsForbidden.by_action e missing (unfold lacking in refl))
    ]
  ]

  surface-Judged :
      (p : Principal)
      → Judged (λ q. (q ≡ p) × Passes g ctx s p) (Fails g ctx s p) (check_surface g ctx s p)
  surface-Judged p = elim (Option-cases (resolve g.permissions s)) [
    | inl e ↦
        let v : check_surface g ctx s p
            ≡ deny (forbidden deny_unmapped_surface (unmapped_message s)) =
          unfold check_surface in ground arith in
        rw v (Fails.unmapped e refl)
    | inr (rule, e) ↦ elim (Bool-cases (actor_permits rule.actor p.kind)) [
      | inr wrong ↦
          let v : check_surface g ctx s p
              ≡ deny (forbidden deny_actor_kind (actor_message rule.actor)) =
            unfold check_surface in ground arith in
          rw v (Fails.wrong_class rule e wrong refl)
      | inl class ↦ elim (Bool-cases (rule.permission == [])) [
        | inl open' ↦
            let v : check_surface g ctx s p ≡ admit p = unfold check_surface in ground arith in
            rw v (
              refl,
              record {
                rule = rule;
                mapped = e;
                class = class;
                permitted = IsPermitted.open_rule ((eq_iff rule.permission []).0 open');
              },
            )
        | inr closed ↦
            let v : check_surface g ctx s p ≡ check_permission g ctx s rule.permission p =
              unfold check_surface in ground arith in
            rw v (
              Judged-rule p rule e class closed (check_permission g ctx s rule.permission p)
                (permission-Judged rule.permission p))
      ]
    ]
  ]

  -- What a verdict says of a request: exempt, admitted, or refused.
  abbrev pub Outcome : Bytes → Verdict → Type 0
  Outcome token (none, none) = is_exempt g.permissions s ≡ true
  Outcome token (some p, none) = Admits g ctx s token p
  Outcome token (none, some d) = Refuses g ctx s token d
  Outcome token (some p, some d) = ⊥

  caller-Outcome :
      (token : Bytes)
      → is_exempt g.permissions s ≡ false
      → IsAuthenticating g.mode
      → (p : Principal) → IsCaller g ctx token p
      → (v : Verdict) → Judged (λ q. (q ≡ p) × Passes g ctx s p) (Fails g ctx s p) v
      → Outcome token v
  caller-Outcome token guarded m p c (some q, none) (same, h) =
      subst (λ r. Admits g ctx s token r) (sym same) (Admits.verified guarded m c h)
  caller-Outcome token guarded m p c (none, some d) h = Refuses.failed guarded m p c h
  caller-Outcome token guarded m p c (none, none) h = absurd h
  caller-Outcome token guarded m p c (some q, some d) h = h

  verified-Outcome :
      (token : Bytes)
      → is_exempt g.permissions s ≡ false
      → IsAuthenticating g.mode
      → (verifier : VerifyFunc) → g.verify ≡ some verifier
      → token ≢ []
      → Outcome token (check g ctx token s)
  verified-Outcome token guarded m verifier configured presented =
      let start = authenticating_check g ctx s token guarded m in
      elim (Result-cases (verifier ctx token)) [
        | inl (e, failed) ↦
            let nobody : (p : Principal) → verifier ctx token ≢ ok (some p) = λ p h. cc in
            rw (start ∙ rejected_token g ctx s token verifier configured presented nobody)
              (Refuses.rejected guarded m verifier configured presented nobody refl)
        | inr (none, e) ↦
            let nobody : (p : Principal) → verifier ctx token ≢ ok (some p) =
              λ p h. absurd (ground arith) in
            rw (start ∙ rejected_token g ctx s token verifier configured presented nobody)
              (Refuses.rejected guarded m verifier configured presented nobody refl)
        | inr (some q, e) ↦
            let p = with_blanket g q in
            let c : IsCaller g ctx token p = record {
              verifier = verifier;
              configured = configured;
              presented = presented;
              verified_as = q;
              verified = e;
              carries = refl;
            } in
            rw (start ∙ caller_token g ctx s token p c)
              (caller-Outcome token guarded m p c (check_surface g ctx s p) (surface-Judged p))
      ]

  token-Outcome :
      (token : Bytes)
      → is_exempt g.permissions s ≡ false
      → IsAuthenticating g.mode
      → Outcome token (check g ctx token s)
  token-Outcome token guarded m = elim (Option-cases g.verify) [
    | inl missing ↦
        let r = Refuses.unconfigured guarded m missing refl in
        rw (check-Refuses g ctx s token no_verifier r) r
    | inr (verifier, configured) ↦ elim (Bool-cases (token == [])) [
      | inl absent ↦
          let r =
            Refuses.anonymous guarded m verifier configured ((eq_iff token []).0 absent) refl in
          rw (check-Refuses g ctx s token missing_token r) r
      | inr present ↦
          verified-Outcome token guarded m verifier configured (ground (arith, eq_iff token []))
    ]
  ]

  -- Every request is judged, and by the ladder alone.
  pub check-Outcome : (token : Bytes) → Outcome token (check g ctx token s)
  check-Outcome token = elim (Bool-cases (is_exempt g.permissions s)) [
    | inl exempt ↦
        let v : check g ctx token s ≡ (none, none) = unfold check in ground arith in rw v exempt
    | inr guarded ↦ elim (Mode-cases g.mode) [
      | inl open' ↦
          let a = Admits.development guarded open' refl in
          rw (check-Admits g ctx s token (dev_principal g) a) a
      | inr (inl closed) ↦
          let r = Refuses.closed guarded closed refl in
          rw (check-Refuses g ctx s token (unavailable_denial g) r) r
      | inr (inr m) ↦ token-Outcome token guarded m
    ]
  ]

  -- `Check` admits `p` exactly if the surface is not exempt, and either the service runs open for
  -- development and `p` is its stand-in principal, or it authenticates, the verifier accepts the
  -- presented token as `p`, the surface is mapped to a rule, the rule accepts the class of `p`, and
  -- `p` holds the rule's permission: on the target that the service resolves, or else at all.
  pub check-Admits_iff :
      (token : Bytes) (p : Principal) → (check g ctx token s ≡ admit p) ↔ Admits g ctx s token p
  check-Admits_iff token p =
      (λ e. subst (Outcome token) e (check-Outcome token), check-Admits g ctx s token p)

  -- `Check` refuses with `d` exactly on the rungs of the ladder, and `d` is that rung's denial: the
  -- checks run in the order mode, verifier, token, mapping, class of caller, permission.
  pub check-Refuses_iff :
      (token : Bytes) (d : Denial) → (check g ctx token s ≡ deny d) ↔ Refuses g ctx s token d
  check-Refuses_iff token d =
      (λ e. subst (Outcome token) e (check-Outcome token), check-Refuses g ctx s token d)

  -- `Check` lets a request through with no principal exactly if the surface is exempt.
  pub check-exempt_iff :
      (token : Bytes) → (check g ctx token s ≡ (none, none)) ↔ (is_exempt g.permissions s ≡ true)
  check-exempt_iff token =
      (λ e. subst (Outcome token) e (check-Outcome token), λ exempt. unfold check in ground arith)
