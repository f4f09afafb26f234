-- ===== src/Client/Tokens/Concurrent/Moves.antt =====
-- What holds while calls of `Token` run at once, and how one step moves it.
use mathlib.Core.List.{Memᴰ}
use mathlib.Core.List.Memᴰ
use mathlib.Core.Option.{some-injective}
use mathlib.Core.Path.{subst}
use maintainerd_sdk.Prelude.{
  ℕ, ◌≡◌, sym, ap, ◌∙◌, ◌≢◌, ◌⊎◌, inl, inr, Bool, true, false, List, [], ◌∷◌, ◌++◌, Option, none,
  some, arith, Result, Bool-cases, byte_eq,
}
use maintainerd_sdk.Text.{Bytes}
use maintainerd_sdk.Client.Tokens.{Time, Duration, TokenError, Cache, empty_cache, Call, token}
use maintainerd_sdk.Client.Tokens.Step.{hits}
use maintainerd_sdk.Client.Tokens.Concurrent.{
  Pc, entered, fetching, leaving, returned, System, update, Entry, reading, critical,
}

-- The calls one after another, the latest first, each with the result that `Token` gives it then.
pub data Replay : List Entry → Cache → Type 0 where
  begin : Replay [] empty_cache
  again :
      {log : List Entry} {c d : Cache} (e : Entry)
      → Replay log c
      → token e.call c ≡ (e.result, d)
      → Replay (e ∷ log) d

-- A result that a call has, by its place.
abbrev pub Answers : Pc → Result TokenError Bytes → Type 0
Answers p r = (p ≡ leaving r) ⊎ (p ≡ returned r)

pub record Inv (log : List Entry) (s : System) : Type 0 where
  pub owner : (i : ℕ) → critical (s.pc i) ≡ true → s.lock ≡ some i
  pub held : (i : ℕ) → s.lock ≡ some i → critical (s.pc i) ≡ true
  pub stale :
      (i : ℕ) (asked : Time)
      → s.pc i ≡ fetching asked
      → (answer : Result TokenError (Bytes × Duration)) (now : Time)
      → hits (reading asked answer now) s.cache ≡ false
  pub replay : Replay log s.cache
  pub answered :
      (i : ℕ) (r : Result TokenError Bytes)
      → Answers (s.pc i) r
      → (call : Call) × Memᴰ (record { thread = i; call = call; result = r }) log

-- The log in which a call has this result.
abbrev pub Logged : List Entry → ℕ → Result TokenError Bytes → Type 0
Logged log i r = (call : Call) × Memᴰ (record { thread = i; call = call; result = r }) log

abbrev pub MissesNow : Cache → Time → Type 0
MissesNow c asked =
    (answer : Result TokenError (Bytes × Duration)) (now : Time)
    → hits (reading asked answer now) c ≡ false

pub at_update :
    (pc : ℕ → Pc) (i : ℕ) (p : Pc) (j : ℕ)
    → ((i ≡ j) × (update pc i p j ≡ p)) ⊎ ((i ≢ j) × (update pc i p j ≡ pc j))
at_update pc i p j = elim (Bool-cases (byte_eq i j)) [
  | inl same ↦ inl (ground arith, ground arith)
  | inr other ↦ inr (ground arith, ground arith)
]

critical_fetching : (p : Pc) (asked : Time) → p ≡ fetching asked → critical p ≡ true
critical_fetching p asked e = ap critical e

true≢false : ◌≢◌ {A = Bool} true false
true≢false e = cc

pub leaving≢fetching : (r : Result TokenError Bytes) (asked : Time) → leaving r ≢ fetching asked
leaving≢fetching r asked e = cc

Answers-along : {p q : Pc} {r : Result TokenError Bytes} → p ≡ q → Answers p r → Answers q r
Answers-along e (inl h) = inl (sym e ∙ h)
Answers-along e (inr h) = inr (sym e ∙ h)

module _ (log : List Entry) (s : System) (v : Inv log s) (i : ℕ) where
  -- Two calls are not between `Lock` and `Unlock` together.
  pub alone : (j : ℕ) → critical (s.pc i) ≡ true → critical (s.pc j) ≡ true → i ≡ j
  alone j hi hj = some-injective i j (sym (v.owner i hi) ∙ v.owner j hj)

  pub owner_acquire :
      s.lock ≡ none
      → (j : ℕ) → critical (update s.pc i entered j) ≡ true
      → ◌≡◌ {A = Option ℕ} (some i) (some j)
  owner_acquire free j h = elim (at_update s.pc i entered j) [
    | inl (same, e) ↦ ap some same
    | inr (other, e) ↦ let taken = v.owner j (sym (ap critical e) ∙ h) in absurd (ground arith)
  ]

  pub owner_keep :
      (p : Pc)
      → critical (s.pc i) ≡ true
      → (j : ℕ) → critical (update s.pc i p j) ≡ true
      → s.lock ≡ some j
  owner_keep p held j h = elim (at_update s.pc i p j) [
    | inl (same, e) ↦ v.owner i held ∙ ap some same
    | inr (other, e) ↦ v.owner j (sym (ap critical e) ∙ h)
  ]

  pub owner_release :
      (p : Pc)
      → critical (s.pc i) ≡ true
      → critical p ≡ false
      → (j : ℕ) → critical (update s.pc i p j) ≡ true
      → ◌≡◌ {A = Option ℕ} none (some j)
  owner_release p held outside j h = elim (at_update s.pc i p j) [
    | inl (same, e) ↦ absurd (true≢false (sym h ∙ ap critical e ∙ outside))
    | inr (other, e) ↦ absurd (other (alone j held (sym (ap critical e) ∙ h)))
  ]

  pub held_acquire :
      (j : ℕ) → ◌≡◌ {A = Option ℕ} (some i) (some j) → critical (update s.pc i entered j) ≡ true
  held_acquire j h = elim (at_update s.pc i entered j) [
    | inl (same, e) ↦ ap critical e
    | inr (other, e) ↦ absurd (other (some-injective i j h))
  ]

  pub held_keep :
      (p : Pc) → critical p ≡ true → (j : ℕ) → s.lock ≡ some j → critical (update s.pc i p j) ≡ true
  held_keep p inside j h = elim (at_update s.pc i p j) [
    | inl (same, e) ↦ ap critical e ∙ inside
    | inr (other, e) ↦ ap critical e ∙ v.held j h
  ]

  pub stale_keep :
      (p : Pc)
      → ((asked : Time) → p ≡ fetching asked → MissesNow s.cache asked)
      → (j : ℕ) (asked : Time) → update s.pc i p j ≡ fetching asked
      → MissesNow s.cache asked
  stale_keep p here j asked h = elim (at_update s.pc i p j) [
    | inl (same, e) ↦ here asked (sym e ∙ h)
    | inr (other, e) ↦ v.stale j asked (sym e ∙ h)
  ]

  -- While a call stores a token, no other call is in `fetch`.
  pub stale_store :
      (c : Cache) (r : Result TokenError Bytes)
      → critical (s.pc i) ≡ true
      → (j : ℕ) (asked : Time) → update s.pc i (leaving r) j ≡ fetching asked
      → MissesNow c asked
  stale_store c r held j asked h = elim (at_update s.pc i (leaving r) j) [
    | inl (same, e) ↦ absurd (leaving≢fetching r asked (sym e ∙ h))
    | inr (other, e) ↦ absurd (other (alone j held (critical_fetching (s.pc j) asked (sym e ∙ h))))
  ]

  pub answered_keep :
      (p : Pc) (out : List Entry)
      → ((r : Result TokenError Bytes) → Answers p r → Logged (out ++ log) i r)
      → (j : ℕ) (r : Result TokenError Bytes) → Answers (update s.pc i p j) r
      → Logged (out ++ log) j r
  answered_keep p out here j r h = elim (at_update s.pc i p j) [
    | inl (same, e) ↦ subst (λ k. Logged (out ++ log) k r) same (here r (Answers-along e h))
    | inr (other, e) ↦
        let (call, m) = v.answered j r (Answers-along e h) in (call, Memᴰ.append_right out m)
  ]
