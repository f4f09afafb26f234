-- ===== src/Authz/Guard/Complete.antt =====
-- Each rung of the ladder makes `Guard.Check` return its verdict.
use maintainerd_sdk.Prelude.{
  ◌≡◌, refl, sym, ap, ◌∙◌, ◌≢◌, inl, inr, false, [], none, some, arith, ok, Bool-cases,
  Result-cases,
}
use maintainerd_sdk.Text.{Bytes, ◌==◌, Unicode}
use maintainerd_sdk.Text.Laws.{eq_iff}
use maintainerd_sdk.Authz.Principal.{Principal}
use maintainerd_sdk.Authz.Surface.{Surface}
use maintainerd_sdk.Authz.Permissions.{is_exempt}
use maintainerd_sdk.Authz.Guard.{
  Mode, enforced, dev_open, unavailable, unnamed, Denial, Guard, Context, VerifyFunc, admit, deny,
  invalid_token, unavailable_denial, dev_principal, check_permission, check_surface, check_token,
  check_mode, check,
}
use maintainerd_sdk.Authz.Guard.Ladder.{
  IsAuthenticating, IsCaller, IsPermitted, IsForbidden, Passes, Fails, Admits, Refuses,
}

module _ ⦃u : Unicode⦄ (g : Guard) (ctx : Context) (s : Surface) where
  permission_admits :
      (required : Bytes) (p : Principal)
      → required ≢ []
      → IsPermitted g ctx s required p
      → check_permission g ctx s required p ≡ admit p
  unfolding check_permission
  permission_admits required p named (IsPermitted.open_rule e) = absurd (named e)
  permission_admits required p named (IsPermitted.on_target target e held) = ground arith
  permission_admits required p named (IsPermitted.by_action e held) = ground arith

  permission_refuses :
      (required : Bytes) (p : Principal) (d : Denial)
      → IsForbidden g ctx s required p d
      → check_permission g ctx s required p ≡ deny d
  unfolding check_permission
  permission_refuses required p d (IsForbidden.on_target target e missing same) =
      rw same (ground arith)
  permission_refuses required p d (IsForbidden.by_action e missing same) = rw same (ground arith)

  surface_admits : (p : Principal) → Passes g ctx s p → check_surface g ctx s p ≡ admit p
  unfolding check_surface
  surface_admits p h =
      let required = h.rule.permission in
      elim (Bool-cases (required == [])) [
        | inl open' ↦ ground (arith, h.mapped, h.class)
        | inr closed ↦
            let named : required ≢ [] = ground (arith, eq_iff required []) in
            ground (arith, h.mapped, h.class, permission_admits required p named h.permitted)
      ]

  surface_refuses :
      (p : Principal) (d : Denial) → Fails g ctx s p d → check_surface g ctx s p ≡ deny d
  unfolding check_surface
  surface_refuses p d (Fails.unmapped e same) = rw same (ground arith)
  surface_refuses p d (Fails.wrong_class rule e wrong same) = rw same (ground arith)
  surface_refuses p d (Fails.insufficient rule e class named h) =
      ground (arith, eq_iff rule.permission [], permission_refuses rule.permission p d h)

  -- A caller that is known goes on to the checks on the surface.
  pub caller_token :
      (token : Bytes) (p : Principal)
      → IsCaller g ctx token p
      → check_token g ctx token s ≡ check_surface g ctx s p
  unfolding check_token
  caller_token token p c =
      rw (c.carries) (ground (arith, c.configured, c.presented, c.verified, eq_iff token []))

  authenticating_mode :
      (m : Mode) (token : Bytes)
      → IsAuthenticating m
      → check_mode g ctx m token s ≡ check_token g ctx token s
  unfolding check_mode
  authenticating_mode enforced token h = refl
  authenticating_mode dev_open token h = absurd (h.0 refl)
  authenticating_mode unavailable token h = absurd (h.1 refl)
  authenticating_mode (unnamed n) token h = refl

  development_mode : (token : Bytes) → check_mode g ctx dev_open token s ≡ admit (dev_principal g)
  unfolding check_mode
  development_mode token = refl

  closed_mode : (token : Bytes) → check_mode g ctx unavailable token s ≡ deny (unavailable_denial g)
  unfolding check_mode
  closed_mode token = refl

  guarded_check :
      (token : Bytes)
      → is_exempt g.permissions s ≡ false
      → check g ctx token s ≡ check_mode g ctx g.mode token s
  unfolding check
  guarded_check token h = ground arith

  pub authenticating_check :
      (token : Bytes)
      → is_exempt g.permissions s ≡ false
      → IsAuthenticating g.mode
      → check g ctx token s ≡ check_token g ctx token s
  authenticating_check token h m = guarded_check token h ∙ authenticating_mode g.mode token m

  pub rejected_token :
      (token : Bytes) (verifier : VerifyFunc)
      → g.verify ≡ some verifier
      → token ≢ []
      → ((p : Principal) → verifier ctx token ≢ ok (some p))
      → check_token g ctx token s ≡ deny invalid_token
  unfolding check_token
  rejected_token token verifier configured presented none_verified =
      elim (Result-cases (verifier ctx token)) [
        | inl (e, failed) ↦ ground (arith, eq_iff token [])
        | inr (none, nobody) ↦ ground (arith, eq_iff token [])
        | inr (some p, somebody) ↦ absurd (none_verified p somebody)
      ]

  pub check-Admits :
      (token : Bytes) (p : Principal) → Admits g ctx s token p → check g ctx token s ≡ admit p
  check-Admits token p (Admits.development guarded open' same) =
      guarded_check token guarded
      ∙ ap (λ m. check_mode g ctx m token s) open'
      ∙ development_mode token
      ∙ ap admit (sym same)
  check-Admits token p (Admits.verified guarded m c h) =
      authenticating_check token guarded m ∙ caller_token token p c ∙ surface_admits p h

  pub check-Refuses :
      (token : Bytes) (d : Denial) → Refuses g ctx s token d → check g ctx token s ≡ deny d
  check-Refuses token d (Refuses.closed guarded m same) =
      guarded_check token guarded
      ∙ ap (λ m. check_mode g ctx m token s) m
      ∙ closed_mode token
      ∙ ap deny (sym same)
  check-Refuses token d (Refuses.unconfigured guarded m missing same) =
      rw (authenticating_check token guarded m, same) (unfold check_token in ground arith)
  check-Refuses token d (Refuses.anonymous guarded m verifier configured absent same) =
      rw (authenticating_check token guarded m, same)
        (unfold check_token in ground (arith, eq_iff token []))
  check-Refuses token d (Refuses.rejected guarded m verifier configured presented h same) =
      rw (authenticating_check token guarded m, same)
        (rejected_token token verifier configured presented h)
  check-Refuses token d (Refuses.failed guarded m p c h) =
      authenticating_check token guarded m ∙ caller_token token p c ∙ surface_refuses p d h
