-- ===== src/Authz/Guard/Store/Refined.antt =====
-- `Guard.Check` in a store of principals comes to `Guard.Check` on the principals themselves, and
-- changes none that anyone else may hold.
use maintainerd_sdk.Prelude.{
  ℕ, ◌<◌, ◌≤◌, ◌≡◌, refl, sym, ap, ◌∙◌, ◌&&◌, [], Option, none, some, Result, ok, err, Bool-cases,
  inl, inr, arith, if◌then◌else◌,
}
use maintainerd_sdk.Text.{Bytes, ◌==◌, Unicode}
use maintainerd_sdk.Auth.{GoError}
use maintainerd_sdk.Authz.Principal.{Principal}
use maintainerd_sdk.Authz.Surface.{Surface}
use maintainerd_sdk.Authz.Permissions.{is_exempt}
use maintainerd_sdk.Authz.Guard.{
  Mode, enforced, dev_open, unavailable, unnamed, Guard, Context, Verdict, VerifyFunc, deny, is_nil,
  has_elements, no_verifier, missing_token, invalid_token, with_blanket, dev_principal,
  check_permission, check_surface, check_token, check_mode, check,
}
use maintainerd_sdk.Authz.Guard.Store.{
  Store, allocate, VerifyPointer, read_verdict, blanket_copy, at_pointer, check_caller,
  check_answer, check_token_stored, check_mode_stored, check_stored,
}

-- The verifier by what its pointers point to.
abbrev pub answer_at : Result GoError (Option ℕ) × Store → Result GoError (Option Principal)
answer_at (err e, st) = err e
answer_at (ok none, st) = ok none
answer_at (ok (some a), st) = ok (some (st.cells a))

abbrev pub verify_at : Option VerifyPointer → Store → Option VerifyFunc
verify_at none st = none
verify_at (some ask) st = some (λ ctx token. answer_at (ask ctx token st))

-- Nothing that was allocated before is changed.
pub record Keeps (st st' : Store) : Type 0 where
  pub grows : st.fresh ≤ st'.fresh
  pub same : (a : ℕ) → a < st.fresh → st'.cells a ≡ st.cells a

-- The verifier changes no principal that was allocated before.
abbrev pub IsCareful : Option VerifyPointer → Type 0
IsCareful none = Unit
IsCareful (some ask) = (ctx : Context) (token : Bytes) (st : Store) → Keeps st (ask ctx token st).1

Keeps-refl : (st : Store) → Keeps st st
Keeps-refl st = record { grows = omega arith; same = λ a h. refl }

Keeps-trans : (s t v : Store) → Keeps s t → Keeps t v → Keeps s v
Keeps-trans s t v h k = record {
  grows = omega (arith, h.grows, k.grows);
  same = λ a lt. k.same a (omega (arith, h.grows)) ∙ h.same a lt;
}

allocate-Keeps : (p : Principal) (st : Store) → Keeps st (allocate p st).1
allocate-Keeps p st = record { grows = omega arith; same = λ a h. ground arith }

blanket_copy-Keeps : (g : Guard) (a : ℕ) (st : Store) → Keeps st (blanket_copy g a st).1
unfolding blanket_copy
blanket_copy-Keeps g a st =
    elim (Bool-cases
      (is_nil (st.cells a).blanket_actions && has_elements g.permissions.blanket_actions)) [
        | inl sets ↦ rw sets (allocate-Keeps _ st)
        | inr as_it_is ↦ rw as_it_is (Keeps-refl st)
      ]

-- The copy is the principal with the blanket actions.
blanket_copy-read :
    (g : Guard) (a : ℕ) (st : Store)
    → (blanket_copy g a st).1.cells (blanket_copy g a st).0 ≡ with_blanket g (st.cells a)
unfolding blanket_copy with_blanket
blanket_copy-read g a st =
    elim (Bool-cases
      (is_nil (st.cells a).blanket_actions && has_elements g.permissions.blanket_actions)) [
        | inl sets ↦ rw sets (ground arith)
        | inr as_it_is ↦ rw as_it_is refl
      ]

verdict_read :
    (v : Verdict) (p : Principal) (b : ℕ) (st : Store)
    → ((q : Principal) → v.0 ≡ some q → q ≡ p)
    → st.cells b ≡ p
    → read_verdict (at_pointer v b, st) ≡ v
verdict_read (none, d) p b st only there = refl
verdict_read (some q, d) p b st only there =
    ap (λ (r : Principal). (some r, d)) (there ∙ sym (only q refl))

module _ ⦃u : Unicode⦄ (g : Guard) (ctx : Context) (s : Surface) where
  -- A caller who is admitted is admitted as it is.
  surface_only : (p q : Principal) → (check_surface g ctx s p).0 ≡ some q → q ≡ p
  unfolding check_surface check_permission
  surface_only p q h = ground arith

  caller_read :
      (a : ℕ) (st : Store)
      → read_verdict (check_caller g ctx s a st)
        ≡ check_surface g ctx s (with_blanket g (st.cells a))
  unfolding check_caller
  caller_read a st =
      let b = (blanket_copy g a st).0 in
      let st' = (blanket_copy g a st).1 in
      verdict_read (check_surface g ctx s (st'.cells b)) (st'.cells b) b st'
        (surface_only (st'.cells b)) refl
      ∙ ap (check_surface g ctx s) (blanket_copy-read g a st)

  caller-Keeps : (a : ℕ) (st : Store) → Keeps st (check_caller g ctx s a st).1
  unfolding check_caller
  caller-Keeps a st = blanket_copy-Keeps g a st

  -- The checks behind the verifier's answer, and behind the verifier.
  abbrev judged : Result GoError (Option Principal) → Verdict
  judged r = elim r [
    | err e ↦ deny invalid_token
    | ok none ↦ deny invalid_token
    | ok (some p) ↦ check_surface g ctx s (with_blanket g p)
  ]

  abbrev asked : Bytes → Option VerifyFunc → Verdict
  asked token o = elim o [
    | none ↦ deny no_verifier
    | some verify ↦ if token == [] then deny missing_token else judged (verify ctx token)
  ]

  answer_read :
      (r : Result GoError (Option ℕ) × Store)
      → read_verdict (check_answer g ctx s r) ≡ judged (answer_at r)
  unfolding check_answer
  answer_read (err e, st) = refl
  answer_read (ok none, st) = refl
  answer_read (ok (some a), st) = caller_read a st

  answer-Keeps : (r : Result GoError (Option ℕ) × Store) → Keeps r.1 (check_answer g ctx s r).1
  unfolding check_answer
  answer-Keeps (err e, st) = Keeps-refl st
  answer-Keeps (ok none, st) = Keeps-refl st
  answer-Keeps (ok (some a), st) = caller-Keeps a st

  token_read :
      (verify : Option VerifyPointer) (token : Bytes) (st : Store)
      → g.verify ≡ verify_at verify st
      → read_verdict (check_token_stored g ctx verify token s st) ≡ check_token g ctx token s
  token_read verify token st e =
      stored verify ∙ sym (ap (asked token) e) ∙ sym (unfold check_token in refl)
    where
      stored :
          (o : Option VerifyPointer)
          → read_verdict (check_token_stored g ctx o token s st) ≡ asked token (verify_at o st)
      stored none = unfold check_token_stored in refl
      stored (some ask) = elim (Bool-cases (token == [])) [
        | inl absent ↦ unfold check_token_stored in rw absent refl
        | inr presented ↦ unfold check_token_stored in rw presented (answer_read (ask ctx token st))
      ]

  token-Keeps :
      (verify : Option VerifyPointer) (token : Bytes) (st : Store)
      → IsCareful verify
      → Keeps st (check_token_stored g ctx verify token s st).1
  unfolding check_token_stored
  token-Keeps none token st careful = Keeps-refl st
  token-Keeps (some ask) token st careful = elim (Bool-cases (token == [])) [
    | inl absent ↦ rw absent (Keeps-refl st)
    | inr presented ↦ rw presented (
        Keeps-trans st (ask ctx token st).1 _ (careful ctx token st)
          (answer-Keeps (ask ctx token st)))
  ]

  mode_read :
      (mode : Mode) (verify : Option VerifyPointer) (token : Bytes) (st : Store)
      → g.verify ≡ verify_at verify st
      → read_verdict (check_mode_stored g ctx verify mode token s st)
        ≡ check_mode g ctx mode token s
  unfolding check_mode_stored check_mode
  mode_read dev_open verify token st e = ground arith
  mode_read unavailable verify token st e = refl
  mode_read enforced verify token st e = token_read verify token st e
  mode_read (unnamed n) verify token st e = token_read verify token st e

  mode-Keeps :
      (mode : Mode) (verify : Option VerifyPointer) (token : Bytes) (st : Store)
      → IsCareful verify
      → Keeps st (check_mode_stored g ctx verify mode token s st).1
  unfolding check_mode_stored
  mode-Keeps dev_open verify token st careful = allocate-Keeps (dev_principal g) st
  mode-Keeps unavailable verify token st careful = Keeps-refl st
  mode-Keeps enforced verify token st careful = token-Keeps verify token st careful
  mode-Keeps (unnamed n) verify token st careful = token-Keeps verify token st careful

-- In a store where principals are shared by their pointers, `Check` returns what it returns on the
-- principals themselves, and changes no principal that was there before, if the verifier changes
-- none.
pub check_stored-IsPure :
    ⦃u : Unicode⦄ (g : Guard) (verify : Option VerifyPointer) (ctx : Context) (s : Surface)
    (token : Bytes) (st : Store)
    → g.verify ≡ verify_at verify st
    → IsCareful verify
    → (read_verdict (check_stored g ctx verify token s st) ≡ check g ctx token s)
      × Keeps st (check_stored g ctx verify token s st).1
unfolding check_stored check
check_stored-IsPure g verify ctx s token st e careful =
    elim (Bool-cases (is_exempt g.permissions s)) [
      | inl open_ ↦ rw open_ (refl, Keeps-refl st)
      | inr guarded ↦ rw guarded (
        mode_read g ctx s g.mode verify token st e,
        mode-Keeps g ctx s g.mode verify token st careful,
      )
    ]
