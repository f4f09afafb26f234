-- ===== src/Tests/ConcurrencyWitnesses.antt =====
-- The theorems on calls of a token source that run at once, applied to two calls.
use mathlib.Core.List.{Memᴰ}
use maintainerd_sdk.Prelude.{
  ℕ, arith, ◌≡◌, ◌↔◌, some, none, refl, true, false, List, [], ◌∷◌, Result, ok, err, ◌*◌, ◌+◌, ◌-◌,
}
use maintainerd_sdk.Text.{Bytes, codes}
use maintainerd_sdk.Client.Tokens.{
  TokenError, token_request, Cache, empty_cache, Call, refresh_margin, second,
}
use maintainerd_sdk.Client.Tokens.Step.{hits}
use maintainerd_sdk.Client.Tokens.Concurrent.{
  critical, System, Entry, reading, Reach, start, later, acquire, hit, miss, fetched, release,
}
use maintainerd_sdk.Client.Tokens.Concurrent.Moves.{Replay, Logged}
use maintainerd_sdk.Client.Tokens.Concurrent.Once.{IsOnce}
use maintainerd_sdk.Client.Tokens.Concurrent.Linear.{mutual_exclusion, Reach-Replay}
use maintainerd_sdk.Client.Tokens.Concurrent.Shared.{IsFreshIn, concurrent-IsFreshIn}
use maintainerd_sdk.Client.Tokens.Concurrent.Progress.{CanReturn, Reach-CanReturn}
use maintainerd_sdk.Client.Tokens.Concurrent.Bounded.{
  Trail, begun, further, OnlyFirst, Ends, Trail-Ends,
}
use maintainerd_sdk.Tests.Env.{run_text}

abbrev tok : Bytes
tok = codes "tok"

abbrev minute : ℕ
minute = 60 * second

abbrev nobody : Result TokenError (Bytes × ℕ)
nobody = err (token_request [])

abbrev filled : Cache
filled = record { token = tok; exp = 7 + (minute - refresh_margin minute) }

first_misses : hits (reading 5 nobody 5) empty_cache ≡ false
unfolding run_text
first_misses = refl

second_hits : hits (reading 9 nobody 9) filled ≡ true
unfolding run_text
second_hits = refl

-- A log and a state that calls reach together.
record Trace : Type 0 where
  log : List Entry
  last : System
  reach : Reach log last

-- Call 0 fetches a token at instant 5, and call 1 finds it at instant 9.
abbrev two_calls : Trace
two_calls = record {
  log =
      record { thread = 1; call = reading 9 nobody 9; result = ok tok }
      ∷ record { thread = 0; call = reading 5 (ok (tok, minute)) 7; result = ok tok }
      ∷ [];
  last = _;
  reach =
      later
        (later
          (later
            (later
              (later (later (later start (acquire 0 refl refl)) (miss 0 5 nobody refl first_misses))
                (fetched 0 5 7 tok minute refl))
              (release 0 (ok tok) refl))
            (acquire 1 refl refl))
          (hit 1 9 nobody refl second_hits))
        (release 1 (ok tok) refl);
}

Reach-Replay_example :
    Replay two_calls.log two_calls.last.cache
    × IsOnce two_calls.log
    × Logged two_calls.log 1 (ok tok)
Reach-Replay_example = Reach-Replay two_calls.log two_calls.last 1 (ok tok) two_calls.reach refl

concurrent-IsFreshIn_example :
    (call : Call) × Memᴰ (record { thread = 1; call = call; result = ok tok }) two_calls.log
    × IsFreshIn two_calls.log call tok
concurrent-IsFreshIn_example =
    concurrent-IsFreshIn two_calls.log two_calls.last 1 tok two_calls.reach refl

-- A state in which call 0 is in `fetch` and call 1 waits.
abbrev contended : Trace
contended = record {
  log = [];
  last = _;
  reach = later (later start (acquire 0 refl refl)) (miss 0 5 nobody refl first_misses);
}

Reach-CanReturn_example : CanReturn contended.last 1
Reach-CanReturn_example = Reach-CanReturn contended.log contended.last 1 contended.reach

-- The steps that led there, counted.
record Run : Type 0 where
  last : System
  trail : Trail 2 last

abbrev two_steps : Run
two_steps = record {
  last = _;
  trail = further (further begun (acquire 0 refl refl)) (miss 0 5 nobody refl first_misses);
}

none_beyond : OnlyFirst 2 two_steps.last
none_beyond j h = ground arith

Trail-Ends_example : Ends 2 2 two_steps.last
Trail-Ends_example = Trail-Ends 2 2 two_steps.last two_steps.trail none_beyond

-- Call 0 is in `fetch` and holds the mutex.
mutual_exclusion_example :
    ((i : ℕ) → (critical (contended.last.pc i) ≡ true) ↔ (contended.last.lock ≡ some i))
    × ((i j : ℕ)
        → critical (contended.last.pc i) ≡ true
        → critical (contended.last.pc j) ≡ true
        → i ≡ j)
    × (((i : ℕ) → critical (contended.last.pc i) ≡ false) → contended.last.lock ≡ none)
mutual_exclusion_example = mutual_exclusion contended.log contended.last contended.reach
