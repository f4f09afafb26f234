-- ===== src/Client/Tokens/Concurrent/Once.antt =====
-- Each call of a token source comes to one result.
use mathlib.Core.List.{Memᴰ}
use mathlib.Core.List.Memᴰ
use mathlib.Core.Path.{subst}
use maintainerd_sdk.Prelude.{
  ℕ, ◌≡◌, refl, sym, ap, ◌∙◌, ◌≢◌, inl, inr, Bool, true, false, List, [], ◌∷◌, ◌++◌,
}
use maintainerd_sdk.Client.Tokens.Concurrent.{
  Pc, waiting, entered, fetching, leaving, returned, System, update, Entry, Step, acquire, hit,
  miss, fetch_failed, fetched, release, Reach, start, later,
}
use maintainerd_sdk.Client.Tokens.Concurrent.Moves.{at_update}

abbrev has_result : Pc → Bool
has_result waiting = false
has_result entered = false
has_result (fetching asked) = false
has_result (leaving r) = true
has_result (returned r) = true

-- Every entry of the log is of a call that has its result.
Settled : List Entry → (ℕ → Pc) → Type 0
Settled log pc = (e : Entry) → Memᴰ e log → has_result (pc e.thread) ≡ true

-- No call stands in the log twice.
abbrev pub IsOnce : List Entry → Type 0
IsOnce [] = Unit
IsOnce (e ∷ log) = ((d : Entry) → Memᴰ d log → d.thread ≢ e.thread) × IsOnce log

abbrev Kept : List Entry → (ℕ → Pc) → Type 0
Kept log pc = Settled log pc × IsOnce log

module _ (log : List Entry) (pc : ℕ → Pc) (k : Kept log pc) (i : ℕ) (p : Pc) where
  -- A call without a result moves.
  unsettled : has_result (pc i) ≡ false → (e : Entry) → Memᴰ e log → e.thread ≢ i
  unfolding Settled
  unsettled h e m same =
      let there : has_result (pc i) ≡ true = subst (λ j. has_result (pc j) ≡ true) same (k.0 e m) in
      absurd (cc)

  moved-Kept : has_result (pc i) ≡ false → Kept log (update pc i p)
  unfolding Settled
  moved-Kept h = (
    λ e m. elim (at_update pc i p e.thread) [
      | inl (same, now) ↦ absurd (unsettled h e m (sym same))
      | inr (other, still) ↦ ap has_result still ∙ k.0 e m
    ],
    k.1,
  )

  -- A call that has its result keeps one.
  settled-Kept : has_result p ≡ true → Kept log (update pc i p)
  unfolding Settled
  settled-Kept h = (
    λ e m. elim (at_update pc i p e.thread) [
      | inl (same, now) ↦ ap has_result now ∙ h
      | inr (other, still) ↦ ap has_result still ∙ k.0 e m
    ],
    k.1,
  )

  -- A call comes to its result.
  logged-Kept :
      (d : Entry)
      → d.thread ≡ i
      → has_result (pc i) ≡ false
      → has_result p ≡ true
      → Kept (d ∷ log) (update pc i p)
  unfolding Settled
  logged-Kept d own before after = (
    λ e m. elim (at_update pc i p e.thread) [
      | inl (same, now) ↦ ap has_result now ∙ after
      | inr (other, still) ↦ elim (Memᴰ.cases_cons m) [
        | inl new ↦ absurd (other (sym (ap (λ (x : Entry). x.thread) new ∙ own)))
        | inr old ↦ ap has_result still ∙ k.0 e old
      ]
    ],
    (λ e m same. unsettled before e m (same ∙ own), k.1),
  )

Step-Kept :
    (log out : List Entry) (s t : System) → Kept log s.pc → Step s out t → Kept (out ++ log) t.pc
Step-Kept log out s t k (acquire i at free) = moved-Kept log s.pc k i entered (ap has_result at)
Step-Kept log out s t k (hit i now answer at h) =
    logged-Kept log s.pc k i _ _ refl (ap has_result at) refl
Step-Kept log out s t k (miss i now answer at h) =
    moved-Kept log s.pc k i (fetching now) (ap has_result at)
Step-Kept log out s t k (fetch_failed i asked now e at) =
    logged-Kept log s.pc k i _ _ refl (ap has_result at) refl
Step-Kept log out s t k (fetched i asked now tok ttl at) =
    logged-Kept log s.pc k i _ _ refl (ap has_result at) refl
Step-Kept log out s t k (release i r at) = settled-Kept log s.pc k i (returned r) refl

Reach-Kept : (log : List Entry) (s : System) → Reach log s → Kept log s.pc
unfolding Settled
Reach-Kept log s start = (λ e m. elim m [ ], tt)
Reach-Kept log s (later {log = before} {out = out} {s = r} reached step) =
    Step-Kept before out r s (Reach-Kept before r reached) step

pub Reach-IsOnce : (log : List Entry) (s : System) → Reach log s → IsOnce log
Reach-IsOnce log s reached = (Reach-Kept log s reached).1
