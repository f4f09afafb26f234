-- ===== src/Client/Tokens/Concurrent.antt =====
-- `Token` of the cached token source as many goroutines run it at once, an access of the shared
-- state at a time.
pub mod Moves
pub mod Once
pub mod Linear
pub mod Shared
pub mod Progress
pub mod Bounded
use maintainerd_sdk.Prelude.{
  ℕ, ◌+◌, ◌-◌, ◌≡◌, Bool, true, false, List, [], ◌∷◌, ◌++◌, Option, none, some, Result, ok, err,
  byte_eq, if◌then◌else◌,
}
use maintainerd_sdk.Text.{Bytes}
use maintainerd_sdk.Client.Tokens.{
  Time, Duration, TokenError, Cache, empty_cache, Call, refresh_margin,
}
use maintainerd_sdk.Client.Tokens.Step.{hits}

-- Where a call stands: before `Lock`, behind it, in `fetch` since an instant, before the deferred
-- `Unlock` with its result, or returned.
pub data Pc : Type 0 where
  waiting entered : Pc
  fetching : Time → Pc
  leaving returned : Result TokenError Bytes → Pc

-- The mutex by the call that holds it, the fields of the source, and each call of `Token` by number.
pub record System : Type 0 where
  pub lock : Option ℕ
  pub cache : Cache
  pub pc : ℕ → Pc

abbrev pub update : (ℕ → Pc) → ℕ → Pc → ℕ → Pc
update pc i p j = if byte_eq i j then p else pc j

-- What a call comes to: its number, what it saw of the clock and of `fetch`, and its result.
pub record Entry : Type 0 where
  pub thread : ℕ
  pub call : Call
  pub result : Result TokenError Bytes

-- A call that reads the clock once, or that also fetches.
abbrev pub reading : Time → Result TokenError (Bytes × Duration) → Time → Call
reading asked answer stored = record { asked = asked; answer = answer; stored = stored }

abbrev moved : System → ℕ → Pc → System
moved s i p = record s { pc = update s.pc i p }

-- One step of one call. The clock and the answer of `fetch` are any; `answer` on a hit is what
-- `fetch` would have said, which nobody asks.
pub data Step (s : System) : List Entry → System → Type 0 where
  acquire :
      (i : ℕ)
      → s.pc i ≡ waiting
      → s.lock ≡ none
      → Step s [] (record s { lock = some i; pc = update s.pc i entered })
  hit :
      (i : ℕ) (now : Time) (answer : Result TokenError (Bytes × Duration))
      → s.pc i ≡ entered
      → hits (reading now answer now) s.cache ≡ true
      → Step s
          (record { thread = i; call = reading now answer now; result = ok s.cache.token } ∷ [])
          (record s { pc = update s.pc i (leaving (ok s.cache.token)) })
  miss :
      (i : ℕ) (now : Time) (answer : Result TokenError (Bytes × Duration))
      → s.pc i ≡ entered
      → hits (reading now answer now) s.cache ≡ false
      → Step s [] (record s { pc = update s.pc i (fetching now) })
  fetch_failed :
      (i : ℕ) (asked now : Time) (e : TokenError)
      → s.pc i ≡ fetching asked
      → Step s
          (record { thread = i; call = reading asked (err e) now; result = err e } ∷ [])
          (record s { pc = update s.pc i (leaving (err e)) })
  fetched :
      (i : ℕ) (asked now : Time) (tok : Bytes) (ttl : Duration)
      → s.pc i ≡ fetching asked
      → Step s
          (record { thread = i; call = reading asked (ok (tok, ttl)) now; result = ok tok } ∷ [])
          (record s {
            cache = record { token = tok; exp = now + (ttl - refresh_margin ttl) };
            pc = update s.pc i (leaving (ok tok));
          })
  release :
      (i : ℕ) (r : Result TokenError Bytes)
      → s.pc i ≡ leaving r
      → Step s [] (record s { lock = none; pc = update s.pc i (returned r) })

abbrev pub init : System
init = record { lock = none; cache = empty_cache; pc = λ i. waiting }

-- The states that calls reach together, with what they came to, the latest first.
pub data Reach : List Entry → System → Type 0 where
  start : Reach [] init
  later : {log out : List Entry} {s t : System} → Reach log s → Step s out t → Reach (out ++ log) t

-- Between `Lock` and `Unlock`.
abbrev pub critical : Pc → Bool
critical waiting = false
critical (returned r) = false
critical entered = true
critical (fetching asked) = true
critical (leaving r) = true
