-- ===== src/Authz/Guard/Store.antt =====
-- authz/guard.go, `Guard.Check` with the principals where Go has them: behind pointers, which a
-- verifier may hand out to many requests at once.
pub mod Refined
use maintainerd_sdk.Prelude.{
  ℕ, suc, ◌<◌, ◌≤◌, ◌≡◌, refl, sym, ap, ◌∙◌, Bool, true, false, not, ◌&&◌, List, [], Option, none,
  some, Result, ok, err, byte_eq, Bool-cases, Option-cases, inl, inr, arith, if◌then◌else◌,
}
use maintainerd_sdk.Text.{Bytes, ◌==◌, Unicode}
use maintainerd_sdk.Auth.{GoError}
use maintainerd_sdk.Authz.Principal.{Principal}
use maintainerd_sdk.Authz.Surface.{Surface}
use maintainerd_sdk.Authz.Permissions.{is_exempt}
use maintainerd_sdk.Authz.Guard.{
  Mode, enforced, dev_open, unavailable, unnamed, Guard, Context, Denial, Verdict, VerifyFunc,
  admit, deny, is_nil, has_elements, no_verifier, missing_token, invalid_token, with_blanket,
  dev_principal, unavailable_denial, check_surface, check_token, check_mode, check,
}

-- The principals that were allocated, by their pointers, which are the numbers below `fresh`.
pub record Store : Type 0 where
  pub fresh : ℕ
  pub cells : ℕ → Principal

-- `&p`
abbrev pub allocate : Principal → Store → ℕ × Store
allocate p st = (
  st.fresh,
  record { fresh = suc st.fresh; cells = λ a. if byte_eq a st.fresh then p else st.cells a },
)

-- A `VerifyFunc`: an error, or a pointer, which may be nil; it may allocate.
abbrev pub VerifyPointer : Type 0
VerifyPointer = Context → Bytes → Store → Result GoError (Option ℕ) × Store

-- `(*Principal, *Denial)`, the first as a pointer.
abbrev pub PointerVerdict : Type 0
PointerVerdict = Option ℕ × Option Denial

-- What the pointers of a verdict point to.
abbrev pub read_verdict : PointerVerdict × Store → Verdict
read_verdict ((none, d), st) = (none, d)
read_verdict ((some a, d), st) = (some (st.cells a), d)

-- The principal with the service's blanket actions: a copy, if there is something to set.
unfoldable pub blanket_copy : Guard → ℕ → Store → ℕ × Store
blanket_copy g a st =
    if is_nil (st.cells a).blanket_actions && has_elements g.permissions.blanket_actions
    then allocate (record (st.cells a) { blanket_actions = g.permissions.blanket_actions }) st
    else (a, st)

-- The verdict on a surface, which admits the very pointer or refuses.
abbrev pub at_pointer : Verdict → ℕ → PointerVerdict
at_pointer (none, d) a = (none, d)
at_pointer (some p, d) a = (some a, d)

module _ ⦃u : Unicode⦄ (g : Guard) (ctx : Context) where
  -- The checks on a verified caller, by its pointer.
  unfoldable pub check_caller : Surface → ℕ → Store → PointerVerdict × Store
  check_caller s a st =
      let (b, st') = blanket_copy g a st in
      (at_pointer (check_surface g ctx s (st'.cells b)) b, st')

  -- What becomes of the verifier's answer.
  unfoldable pub check_answer : Surface → Result GoError (Option ℕ) × Store → PointerVerdict × Store
  check_answer s (err e, st) = ((none, some invalid_token), st)
  check_answer s (ok none, st) = ((none, some invalid_token), st)
  check_answer s (ok (some a), st) = check_caller s a st

  module _ (verify : Option VerifyPointer) where
    unfoldable pub check_token_stored : Bytes → Surface → Store → PointerVerdict × Store
    check_token_stored token s st = elim verify [
      | none ↦ ((none, some no_verifier), st)
      | some ask ↦
          if token == []
          then ((none, some missing_token), st)
          else check_answer s (ask ctx token st)
    ]

    unfoldable pub check_mode_stored : Mode → Bytes → Surface → Store → PointerVerdict × Store
    check_mode_stored dev_open token s st =
        let (a, st') = allocate (dev_principal g) st in ((some a, none), st')
    check_mode_stored unavailable token s st = ((none, some (unavailable_denial g)), st)
    check_mode_stored enforced token s st = check_token_stored token s st
    check_mode_stored (unnamed n) token s st = check_token_stored token s st

    -- `Guard.Check`, in the store.
    unfoldable pub check_stored : Bytes → Surface → Store → PointerVerdict × Store
    check_stored token s st =
        if is_exempt g.permissions s
        then ((none, none), st)
        else check_mode_stored g.mode token s st
