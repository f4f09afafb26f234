-- ===== src/Client/Tokens/Concurrent/Linear.antt =====
-- Calls of a token source that run at once: who holds the mutex, and the same calls in a row.
use mathlib.Core.List.{Memᴰ}
use mathlib.Core.Path.{subst}
use maintainerd_sdk.Prelude.{
  ℕ, ◌≡◌, refl, ap, inl, inr, true, false, ◌↔◌, Option-cases, List, [], ◌∷◌, ◌++◌, none, some,
  arith, Result, ok, err,
}
use maintainerd_sdk.Text.{Bytes}
use maintainerd_sdk.Client.Tokens.{Time, TokenError, Cache, Call, token}
use maintainerd_sdk.Client.Tokens.Step.{hit_call, miss_ok, miss_err, stored_cache}
use maintainerd_sdk.Client.Tokens.Concurrent.{
  entered, fetching, leaving, returned, System, update, Entry, reading, Step, acquire, hit, miss,
  fetch_failed, fetched, release, init, Reach, start, later, critical,
}
use maintainerd_sdk.Client.Tokens.Concurrent.Once.{IsOnce, Reach-IsOnce}
use maintainerd_sdk.Client.Tokens.Concurrent.Moves.{
  Replay, begin, again, Answers, Inv, Logged, MissesNow, owner_acquire, owner_keep, owner_release,
  held_acquire, held_keep, stale_keep, stale_store, answered_keep, alone,
}

init-Inv : Inv [] init
init-Inv = record {
  owner = λ i h. absurd (ground arith);
  held = λ i h. absurd (ground arith);
  stale = λ i asked h. absurd (ground arith);
  replay = begin;
  answered = λ i r h. absurd (ground arith);
}

leaving_result : (r q : Result TokenError Bytes) → Answers (leaving r) q → q ≡ r
leaving_result r q (inl h) = cc
leaving_result r q (inr h) = absurd (ground arith)

returned_result : (r q : Result TokenError Bytes) → Answers (returned r) q → r ≡ q
returned_result r q (inl h) = absurd (ground arith)
returned_result r q (inr h) = cc

fetching_since : (now asked : Time) → fetching now ≡ fetching asked → now ≡ asked
fetching_since now asked h = cc

module _ (log : List Entry) (s : System) (v : Inv log s) (i : ℕ) where
  acquire-Inv : s.lock ≡ none → Inv log (record s { lock = some i; pc = update s.pc i entered })
  acquire-Inv free = record {
    owner = owner_acquire log s v i free;
    held = held_acquire log s v i;
    stale = stale_keep log s v i entered (λ asked h. absurd (ground arith));
    replay = v.replay;
    answered = answered_keep log s v i entered [] (λ r h. absurd (ground arith));
  }

  -- A call that holds the lock comes to a result, with the cache that it leaves.
  finish-Inv :
      (c : Cache) (call : Call) (r : Result TokenError Bytes)
      → critical (s.pc i) ≡ true
      → token call s.cache ≡ (r, c)
      → Inv
          (record { thread = i; call = call; result = r } ∷ log)
          (record s { cache = c; pc = update s.pc i (leaving r) })
  finish-Inv c call r held e =
      let entry : Entry = record { thread = i; call = call; result = r } in
      record {
        owner = owner_keep log s v i (leaving r) held;
        held = held_keep log s v i (leaving r) refl;
        stale = stale_store log s v i c r held;
        replay = again entry v.replay e;
        answered = answered_keep log s v i (leaving r) (entry ∷ []) (λ q h. (
          call,
          Memᴰ.head (λ k. record { thread = i; call = call; result = leaving_result r q h k }),
        ));
      }

  miss-Inv :
      (now : Time)
      → critical (s.pc i) ≡ true
      → MissesNow s.cache now
      → Inv log (record s { pc = update s.pc i (fetching now) })
  miss-Inv now held misses = record {
    owner = owner_keep log s v i (fetching now) held;
    held = held_keep log s v i (fetching now) refl;
    stale =
        stale_keep log s v i (fetching now)
          (λ asked h. subst (MissesNow s.cache) (fetching_since now asked h) misses);
    replay = v.replay;
    answered = answered_keep log s v i (fetching now) [] (λ r h. absurd (ground arith));
  }

  release-Inv :
      (r : Result TokenError Bytes)
      → s.pc i ≡ leaving r
      → Inv log (record s { lock = none; pc = update s.pc i (returned r) })
  release-Inv r at = record {
    owner = owner_release log s v i (returned r) (ap critical at) refl;
    held = λ j h. absurd (ground arith);
    stale = stale_keep log s v i (returned r) (λ asked h. absurd (ground arith));
    replay = v.replay;
    answered =
        answered_keep log s v i (returned r) []
          (λ q h. subst (Logged log i) (returned_result r q h) (v.answered i r (inl at)));
  }

Step-Inv : (log out : List Entry) (s t : System) → Inv log s → Step s out t → Inv (out ++ log) t
Step-Inv log out s t v (acquire i at free) = acquire-Inv log s v i free
Step-Inv log out s t v (hit i now answer at h) =
    finish-Inv log s v i s.cache (reading now answer now) (ok s.cache.token) (ap critical at)
      (hit_call (reading now answer now) s.cache h)
Step-Inv log out s t v (miss i now answer at h) =
    miss-Inv log s v i now (ap critical at) (λ answer' now'. h)
Step-Inv log out s t v (fetch_failed i asked now e at) =
    finish-Inv log s v i s.cache (reading asked (err e) now) (err e) (ap critical at)
      (miss_err (reading asked (err e) now) s.cache e (v.stale i asked at (err e) now) refl)
Step-Inv log out s t v (fetched i asked now tok ttl at) =
    finish-Inv log s v i _ (reading asked (ok (tok, ttl)) now) (ok tok) (ap critical at) (
      unfold stored_cache in
      miss_ok (reading asked (ok (tok, ttl)) now) s.cache tok ttl
        (v.stale i asked at (ok (tok, ttl)) now) refl)
Step-Inv log out s t v (release i r at) = release-Inv log s v i r at

pub Reach-Inv : (log : List Entry) (s : System) → Reach log s → Inv log s
Reach-Inv log s start = init-Inv
Reach-Inv log s (later {log = before} {out = out} {s = r} {t = t} reached step) =
    Step-Inv before out r t (Reach-Inv before r reached) step

-- Whatever calls run at once, the mutex is held by exactly the call that is between its `Lock` and
-- its `Unlock`, wherever it is there, `fetch` included; so two calls are never there together, and
-- where none is, the mutex is free.
pub mutual_exclusion :
    (log : List Entry) (s : System)
    → Reach log s
    → ((i : ℕ) → (critical (s.pc i) ≡ true) ↔ (s.lock ≡ some i))
      × ((i j : ℕ) → critical (s.pc i) ≡ true → critical (s.pc j) ≡ true → i ≡ j)
      × (((i : ℕ) → critical (s.pc i) ≡ false) → s.lock ≡ none)
mutual_exclusion log s r =
    let v = Reach-Inv log s r in
    (
      λ i. (v.owner i, v.held i),
      alone log s v,
      λ outside. elim (Option-cases s.lock) [
        | inl free ↦ free
        | inr (j, taken) ↦ absurd (let held = v.held j taken in let out = outside j in ground arith)
      ],
    )

-- However calls of `Token` interleave, there is an order of them in which the sequential source,
-- asked one call after another, gives each call its very result and ends with the same cache; every
-- call that has returned stands in that order with its result, and none stands there twice.
pub Reach-Replay :
    (log : List Entry) (s : System) (i : ℕ) (r : Result TokenError Bytes)
    → Reach log s
    → s.pc i ≡ returned r
    → Replay log s.cache × IsOnce log × Logged log i r
Reach-Replay log s i r reached at =
    let v = Reach-Inv log s reached in
    (v.replay, Reach-IsOnce log s reached, v.answered i r (inr at))
