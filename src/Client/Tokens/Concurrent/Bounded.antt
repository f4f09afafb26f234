-- ===== src/Client/Tokens/Concurrent/Bounded.antt =====
-- Calls of a token source come to an end: how many steps they take together, and where they stop.
use mathlib.Core.Path.{subst}
use maintainerd_sdk.Prelude.{
  ℕ, zero, suc, ◌≤◌, ◌<◌, ◌+◌, ◌*◌, ◌≡◌, refl, sym, ap, ◌∙◌, ◌⊎◌, ◌≢◌, Bool, true, false,
  Bool-cases, Option-cases, ltb, byte_eq, inl, inr, List, [], ◌++◌, arith, Result, ok, err,
}
use maintainerd_sdk.Text.{Bytes}
use maintainerd_sdk.Client.Tokens.{TokenError, token_request}
use maintainerd_sdk.Client.Tokens.Concurrent.{
  Pc, waiting, entered, fetching, leaving, returned, System, update, Entry, Step, acquire, hit,
  miss, fetch_failed, fetched, release, init, Reach, start, later, reading, critical,
}
use maintainerd_sdk.Client.Tokens.Concurrent.Moves.{at_update}
use maintainerd_sdk.Client.Tokens.Concurrent.Linear.{Reach-Inv}
use maintainerd_sdk.Client.Tokens.Step.{hits}

-- The steps that a call has left at most.
abbrev left : Pc → ℕ
left waiting = 4
left entered = 3
left (fetching asked) = 2
left (leaving r) = 1
left (returned r) = 0

-- What the first calls have left together.
abbrev left_of : ℕ → (ℕ → Pc) → ℕ
left_of zero pc = 0
left_of (suc n) pc = left (pc n) + left_of n pc

-- A state, and how many steps led to it.
pub data Trail : ℕ → System → Type 0 where
  begun : Trail 0 init
  further : {k : ℕ} {out : List Entry} {s t : System} → Trail k s → Step s out t → Trail (suc k) t

-- Only the first calls have been made.
abbrev pub OnlyFirst : ℕ → System → Type 0
OnlyFirst n s = (j : ℕ) → n ≤ j → s.pc j ≡ waiting

abbrev pub AllReturned : ℕ → System → Type 0
AllReturned n s = (i : ℕ) → i < n → (r : Result TokenError Bytes) × (s.pc i ≡ returned r)

-- The call that a step is a step of.
abbrev pub mover : {s t : System} {out : List Entry} → Step s out t → ℕ
mover (acquire i at free) = i
mover (hit i now answer at h) = i
mover (miss i now answer at h) = i
mover (fetch_failed i asked now e at) = i
mover (fetched i asked now tok ttl at) = i
mover (release i r at) = i

-- A step of this very call is possible.
pub record CanStep (s : System) (i : ℕ) : Type 0 where
  pub out : List Entry
  pub next : System
  pub step : Step s out next
  pub own : mover step ≡ i

-- One of the first calls can make a step.
abbrev pub CanMove : ℕ → System → Type 0
CanMove n s = (i : ℕ) × (i < n) × CanStep s i

-- A run of this many steps is within what the calls may take, and goes on or is over.
abbrev pub Ends : ℕ → ℕ → System → Type 0
Ends n k s = (k ≤ 4 * n) × (AllReturned n s ⊎ CanMove n s)

left_other :
    (pc : ℕ → Pc) (i : ℕ) (p : Pc) (n : ℕ) → n ≤ i → left_of n (update pc i p) ≡ left_of n pc
left_other pc i p zero h = refl
left_other pc i p (suc n) h = elim (at_update pc i p n) [
  | inl (same, e) ↦ absurd (omega arith)
  | inr (other, e) ↦ let rest = left_other pc i p n (omega arith) in λ k. left (e k) + rest k
]

-- A call that moves has fewer steps left, and the others what they had.
left_down :
    (pc : ℕ → Pc) (i : ℕ) (p : Pc) (n : ℕ)
    → i < n
    → left p < left (pc i)
    → left_of n (update pc i p) < left_of n pc
left_down pc i p zero h d = absurd (omega arith)
left_down pc i p (suc n) h d = elim (at_update pc i p n) [
  | inl (same, e) ↦
      let rest = left_other pc i p n (omega arith) in
      let here_left : left (update pc i p n) ≡ left p = ap left e in
      let from : left (pc i) ≡ left (pc n) = ap (λ k. left (pc k)) same in omega arith
  | inr (other, e) ↦
      let rest = left_down pc i p n (omega arith) d in
      let stays : left (update pc i p n) ≡ left (pc n) = ap left e in omega arith
]

-- What a step does to the calls: one of them moves, and has fewer steps left.
Moved : System → System → Type 0
Moved s t = (i : ℕ) × (p : Pc) × (left p < left (s.pc i)) × (t.pc ≡ update s.pc i p)

Step-Moved : (s t : System) (out : List Entry) → Step s out t → Moved s t
unfolding Moved
Step-Moved s t out (acquire i at free) =
    (i, entered, subst (λ q. 3 < left q) (sym at) (omega arith), refl)
Step-Moved s t out (hit i now answer at h) =
    (i, leaving (ok s.cache.token), subst (λ q. 1 < left q) (sym at) (omega arith), refl)
Step-Moved s t out (miss i now answer at h) =
    (i, fetching now, subst (λ q. 2 < left q) (sym at) (omega arith), refl)
Step-Moved s t out (fetch_failed i asked now e at) =
    (i, leaving (err e), subst (λ q. 1 < left q) (sym at) (omega arith), refl)
Step-Moved s t out (fetched i asked now tok ttl at) =
    (i, leaving (ok tok), subst (λ q. 1 < left q) (sym at) (omega arith), refl)
Step-Moved s t out (release i r at) =
    (i, returned r, subst (λ q. 0 < left q) (sym at) (omega arith), refl)

left_bound : (p : Pc) → left p ≤ 4
left_bound waiting = omega arith
left_bound entered = omega arith
left_bound (fetching asked) = omega arith
left_bound (leaving r) = omega arith
left_bound (returned r) = omega arith

left_init : (n : ℕ) → left_of n init.pc ≡ 4 * n
left_init zero = refl
left_init (suc n) = let rest = left_init n in omega arith

module _ (n : ℕ) (s t : System) (first : OnlyFirst n t) where
  -- The call that moved is one of the first.
  mover_first : (i : ℕ) (p : Pc) → left p < left (s.pc i) → t.pc ≡ update s.pc i p → i < n
  mover_first i p less e = elim (Bool-cases (ltb i n)) [
    | inl low ↦ ground arith
    | inr outside ↦
        let high : n ≤ i = ground arith in
        elim (at_update s.pc i p i) [
          | inr (other, same) ↦ absurd (other refl)
          | inl (same, now) ↦
              let still : p ≡ waiting = sym now ∙ ap (λ pc. pc i) (sym e) ∙ first i high in
              let four : left p ≡ 4 = ap left still in
              let most = left_bound (s.pc i) in absurd (omega arith)
        ]
  ]

  -- Before a step, too, only the first calls had been made.
  before_first : Moved s t → OnlyFirst n s
  unfolding Moved
  before_first (i, p, less, e) j high =
      let low = mover_first i p less e in
      elim (at_update s.pc i p j) [
        | inl (same, now) ↦ absurd (omega arith)
        | inr (other, stays) ↦ sym stays ∙ ap (λ pc. pc j) (sym e) ∙ first j high
      ]

  step_down : Moved s t → left_of n t.pc < left_of n s.pc
  unfolding Moved
  step_down (i, p, less, e) =
      subst (λ pc. left_of n pc < left_of n s.pc) (sym e)
        (left_down s.pc i p n (mover_first i p less e) less)

-- Steps made and steps left.
budget : (n k : ℕ) (s : System) → Trail k s → OnlyFirst n s → k + left_of n s.pc ≤ 4 * n
budget n zero s begun first = let all = left_init n in omega arith
budget n (suc k) t (further {out = out} {s = s} trail step) first =
    let moved = Step-Moved s t out step in
    let rest = budget n k s trail (before_first n s t first moved) in
    let down = step_down n s t first moved in omega arith

Trail-Reach : (k : ℕ) (s : System) → Trail k s → (log : List Entry) × Reach log s
Trail-Reach k s begun = ([], start)
Trail-Reach k t (further {k = before} {out = out} {s = s} trail step) =
    let (log, reached) = Trail-Reach before s trail in (out ++ log, later reached step)

returned_or_not : (p : Pc) → ((r : Result TokenError Bytes) × (p ≡ returned r)) ⊎ (0 < left p)
returned_or_not waiting = inr (omega arith)
returned_or_not entered = inr (omega arith)
returned_or_not (fetching asked) = inr (omega arith)
returned_or_not (leaving r) = inr (omega arith)
returned_or_not (returned r) = inl (r, refl)

true≢false : ◌≢◌ {A = Bool} true false
true≢false e = cc

step_entered : (s : System) (i : ℕ) → s.pc i ≡ entered → CanStep s i
step_entered s i at = elim (Bool-cases (hits (reading 0 (err (token_request [])) 0) s.cache)) [
  | inl there ↦ record {
    out = _;
    next = _;
    step = hit i 0 (err (token_request [])) at there;
    own = refl;
  }
  | inr gone ↦ record {
    out = _;
    next = _;
    step = miss i 0 (err (token_request [])) at gone;
    own = refl;
  }
]

-- Behind the mutex a call is never stuck.
step_critical : (s : System) (i : ℕ) (p : Pc) → s.pc i ≡ p → critical p ≡ true → CanStep s i
step_critical s i waiting at h = absurd (ground arith)
step_critical s i (returned r) at h = absurd (ground arith)
step_critical s i entered at h = step_entered s i at
step_critical s i (fetching asked) at h = record {
  out = _;
  next = _;
  step = fetch_failed i asked asked (token_request []) at;
  own = refl;
}
step_critical s i (leaving r) at h = record { out = _; next = _; step = release i r at; own = refl }

-- The holder of the mutex is one of the calls that were made.
holder_first : (n : ℕ) (s : System) (j : ℕ) → OnlyFirst n s → critical (s.pc j) ≡ true → j < n
holder_first n s j first held = elim (Bool-cases (ltb j n)) [
  | inl low ↦ ground arith
  | inr outside ↦
      let still = first j (ground arith) in absurd (true≢false (sym held ∙ ap critical still))
]

-- A call that has not returned can move, or waits for one that can.
moves_or_waits :
    (n : ℕ) (log : List Entry) (s : System) (i : ℕ) (p : Pc)
    → Reach log s
    → OnlyFirst n s
    → i < n
    → s.pc i ≡ p
    → 0 < left p
    → CanMove n s
moves_or_waits n log s i (returned r) reached first low at more = absurd (omega arith)
moves_or_waits n log s i entered reached first low at more = (i, low, step_entered s i at)
moves_or_waits n log s i (fetching asked) reached first low at more =
    (i, low, step_critical s i (fetching asked) at refl)
moves_or_waits n log s i (leaving r) reached first low at more =
    (i, low, step_critical s i (leaving r) at refl)
moves_or_waits n log s i waiting reached first low at more = elim (Option-cases s.lock) [
  | inl free ↦ (i, low, record { out = _; next = _; step = acquire i at free; own = refl })
  | inr (j, taken) ↦
      let held = (Reach-Inv log s reached).held j taken in
      (j, holder_first n s j first held, step_critical s j (s.pc j) refl held)
]

one_more :
    (n : ℕ) (s : System)
    → (r : Result TokenError Bytes) × (s.pc n ≡ returned r)
    → AllReturned n s
    → AllReturned (suc n) s
one_more n s last all i h = elim (Bool-cases (byte_eq i n)) [
  | inl same ↦
      let e : n ≡ i = ground arith in
      subst (λ j. (r : Result TokenError Bytes) × (s.pc j ≡ returned r)) e last
  | inr other ↦ all i (ground arith)
]

module _ (n : ℕ) (log : List Entry) (s : System) (reached : Reach log s)
    (first : OnlyFirst n s) where
  returned_or_moves : (m : ℕ) → m ≤ n → AllReturned m s ⊎ CanMove n s
  returned_or_moves zero h = inl (λ i h. absurd (omega arith))
  returned_or_moves (suc m) h = elim (returned_or_not (s.pc m)) [
    | inr more ↦ inr (moves_or_waits n log s m (s.pc m) reached first (omega arith) refl more)
    | inl last ↦ elim (returned_or_moves m (omega arith)) [
      | inr moves ↦ inr moves
      | inl all ↦ inl (one_more m s last all)
    ]
  ]

-- If the first `n` calls of `Token` are the only ones that have made a step, then they have made at
-- most four steps each, all together, in whatever order they moved and whatever the clock and
-- `fetch` said; and until each of them has returned, a step of one of these very calls is possible.
pub Trail-Ends : (n k : ℕ) (s : System) → Trail k s → OnlyFirst n s → Ends n k s
Trail-Ends n k s trail first =
    let all = budget n k s trail first in
    let (log, reached) = Trail-Reach k s trail in
    (omega arith, returned_or_moves n log s reached first n (omega arith))
