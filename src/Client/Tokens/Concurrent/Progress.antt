-- ===== src/Client/Tokens/Concurrent/Progress.antt =====
-- The calls of a token source never lock each other out.
use maintainerd_sdk.Prelude.{
  ℕ, ◌≡◌, refl, sym, ap, ◌∙◌, ◌≢◌, inl, inr, Bool, true, false, List, [], none, some, arith, Result,
  ok, err, Bool-cases, Option-cases,
}
use maintainerd_sdk.Text.{Bytes}
use maintainerd_sdk.Client.Tokens.{Time, TokenError, token_request}
use maintainerd_sdk.Client.Tokens.Step.{hits}
use maintainerd_sdk.Client.Tokens.Concurrent.{
  Pc, waiting, entered, fetching, leaving, returned, System, update, Entry, reading, Step, acquire,
  hit, miss, fetch_failed, release, Reach, critical,
}
use maintainerd_sdk.Client.Tokens.Concurrent.Moves.{at_update}
use maintainerd_sdk.Client.Tokens.Concurrent.Linear.{Reach-Inv}

-- Any number of steps.
pub data Steps : System → System → Type 0 where
  here : {s : System} → Steps s s
  onward : {out : List Entry} {s t u : System} → Step s out t → Steps t u → Steps s u

Steps-join : {s t u : System} → Steps s t → Steps t u → Steps s u
Steps-join here q = q
Steps-join (onward step p) q = onward step (Steps-join p q)

update_self : (pc : ℕ → Pc) (i : ℕ) (p : Pc) → update pc i p i ≡ p
update_self pc i p = elim (at_update pc i p i) [
  | inl (same, e) ↦ e
  | inr (other, e) ↦ absurd (other refl)
]

update_other : (pc : ℕ → Pc) (i : ℕ) (p : Pc) (j : ℕ) → i ≢ j → update pc i p j ≡ pc j
update_other pc i p j h = elim (at_update pc i p j) [
  | inl (same, e) ↦ absurd (h same)
  | inr (other, e) ↦ e
]

-- Steps after which the call has returned and the mutex is free, and no other call has moved.
record Finishes (s : System) (i : ℕ) : Type 0 where
  after : System
  steps : Steps s after
  free : after.lock ≡ none
  result : Result TokenError Bytes
  back : after.pc i ≡ returned result
  others : (j : ℕ) → i ≢ j → after.pc j ≡ s.pc j

-- One more step of the same call in front.
Finishes-onward :
    (s t : System) (i : ℕ) (out : List Entry)
    → Step s out t
    → ((j : ℕ) → i ≢ j → t.pc j ≡ s.pc j)
    → Finishes t i
    → Finishes s i
Finishes-onward s t i out step same f = record {
  after = f.after;
  steps = onward step f.steps;
  free = f.free;
  result = f.result;
  back = f.back;
  others = λ j h. f.others j h ∙ same j h;
}

finish_leaving :
    (s : System) (i : ℕ) (r : Result TokenError Bytes) → s.pc i ≡ leaving r → Finishes s i
finish_leaving s i r at = record {
  after = record s { lock = none; pc = update s.pc i (returned r) };
  steps = onward (release i r at) here;
  free = refl;
  result = r;
  back = update_self s.pc i (returned r);
  others = update_other s.pc i (returned r);
}

-- `fetch` answers, be it with an error.
finish_fetching : (s : System) (i : ℕ) (asked : Time) → s.pc i ≡ fetching asked → Finishes s i
finish_fetching s i asked at =
    let e = token_request [] in
    Finishes-onward s (record s { pc = update s.pc i (leaving (err e)) }) i _
      (fetch_failed i asked asked e at) (update_other s.pc i (leaving (err e)))
      (finish_leaving (record s { pc = update s.pc i (leaving (err e)) }) i (err e)
        (update_self s.pc i (leaving (err e))))

finish_entered : (s : System) (i : ℕ) → s.pc i ≡ entered → Finishes s i
finish_entered s i at = elim (Bool-cases (hits (reading 0 (err (token_request [])) 0) s.cache)) [
  | inl there ↦
      let p = leaving (ok s.cache.token) in
      Finishes-onward s (record s { pc = update s.pc i p }) i _
        (hit i 0 (err (token_request [])) at there) (update_other s.pc i p)
        (finish_leaving (record s { pc = update s.pc i p }) i (ok s.cache.token)
          (update_self s.pc i p))
  | inr gone ↦
      Finishes-onward s (record s { pc = update s.pc i (fetching 0) }) i _
        (miss i 0 (err (token_request [])) at gone) (update_other s.pc i (fetching 0))
        (finish_fetching (record s { pc = update s.pc i (fetching 0) }) i 0
          (update_self s.pc i (fetching 0)))
]

finish_critical : (s : System) (i : ℕ) (p : Pc) → s.pc i ≡ p → critical p ≡ true → Finishes s i
finish_critical s i waiting at h = absurd (ground arith)
finish_critical s i (returned r) at h = absurd (ground arith)
finish_critical s i (leaving r) at h = finish_leaving s i r at
finish_critical s i (fetching asked) at h = finish_fetching s i asked at
finish_critical s i entered at h = finish_entered s i at

finish_waiting : (s : System) (i : ℕ) → s.pc i ≡ waiting → s.lock ≡ none → Finishes s i
finish_waiting s i at free =
    let t = record s { lock = some i; pc = update s.pc i entered } in
    Finishes-onward s t i [] (acquire i at free) (update_other s.pc i entered)
      (finish_entered t i (update_self s.pc i entered))

-- The call can return.
abbrev pub CanReturn : System → ℕ → Type 0
CanReturn s i = (t : System) × (r : Result TokenError Bytes) × Steps s t × (t.pc i ≡ returned r)

returns : (s : System) (i : ℕ) → Finishes s i → CanReturn s i
returns s i f = (f.after, f.result, f.steps, f.back)

-- Another call holds the mutex: it finishes first.
returns_after :
    (s : System) (i j : ℕ) (p : Pc)
    → s.pc i ≡ p
    → critical p ≡ false
    → j ≢ i
    → Finishes s j
    → CanReturn s i
returns_after s i j (returned r) at h other f = (s, r, here, at)
returns_after s i j waiting at h other f =
    let g = finish_waiting f.after i (f.others i other ∙ at) f.free in
    (g.after, g.result, Steps-join f.steps g.steps, g.back)
returns_after s i j entered at h other f = absurd (ground arith)
returns_after s i j (fetching asked) at h other f = absurd (ground arith)
returns_after s i j (leaving r) at h other f = absurd (ground arith)

returns_free :
    (s : System) (i : ℕ) (p : Pc) → s.pc i ≡ p → critical p ≡ false → s.lock ≡ none → CanReturn s i
returns_free s i waiting at h free = returns s i (finish_waiting s i at free)
returns_free s i (returned r) at h free = (s, r, here, at)
returns_free s i entered at h free = absurd (ground arith)
returns_free s i (fetching asked) at h free = absurd (ground arith)
returns_free s i (leaving r) at h free = absurd (ground arith)

false≢true : ◌≢◌ {A = Bool} false true
false≢true e = cc

-- From every state that calls reach together, and for every call, there are further steps after
-- which that call has returned: no state is a deadlock.
pub Reach-CanReturn : (log : List Entry) (s : System) (i : ℕ) → Reach log s → CanReturn s i
Reach-CanReturn log s i reached =
    let v = Reach-Inv log s reached in
    elim (Bool-cases (critical (s.pc i))) [
      | inl inside ↦ returns s i (finish_critical s i (s.pc i) refl inside)
      | inr outside ↦ elim (Option-cases s.lock) [
        | inl free ↦ returns_free s i (s.pc i) refl outside free
        | inr (j, taken) ↦
            let held = v.held j taken in
            returns_after s i j (s.pc i) refl outside
              (λ e. false≢true (sym outside ∙ ap (λ k. critical (s.pc k)) (sym e) ∙ held))
              (finish_critical s j (s.pc j) refl held)
      ]
    ]
