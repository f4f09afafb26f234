-- ===== src/Client/Tokens/Concurrent/Shared.antt =====
-- A token that one of many calls at once returns is as fresh as one that a call alone returns.
use mathlib.Core.List.{Memᴰ}
use mathlib.Core.Path.{subst}
use maintainerd_sdk.Prelude.{
  ℕ, ◌<◌, ◌+◌, ◌≡◌, refl, sym, ap, ◌∙◌, ◌⊎◌, inl, inr, List, ◌∷◌, map, ok, Memᴰ-map,
}
use maintainerd_sdk.Text.{Bytes}
use maintainerd_sdk.Client.Tokens.{Duration, Cache, Call, refresh_margin, token}
use maintainerd_sdk.Client.Tokens.Fresh.{Run, token-IsFresh}
use maintainerd_sdk.Client.Tokens.Concurrent.{System, Entry, returned, Reach}
use maintainerd_sdk.Client.Tokens.Concurrent.Moves.{Replay, begin, again}
use maintainerd_sdk.Client.Tokens.Concurrent.Linear.{Reach-Replay}

abbrev calls_of : List Entry → List Call
calls_of = map (λ e. e.call)

Replay-Run : (log : List Entry) (c : Cache) → Replay log c → Run (calls_of log) c
Replay-Run log c begin = Run.start
Replay-Run log c (again {log = before} {c = b} e r h) =
    subst (Run (calls_of (e ∷ before))) (ap (λ p. p.1) h) (Run.next e.call (Replay-Run before b r))

-- The token was fetched by the call itself, or by a logged call with more than the margin left.
abbrev pub IsFreshIn : List Entry → Call → Bytes → Type 0
IsFreshIn log call tok =
    ((ttl : Duration) × (call.answer ≡ ok (tok, ttl)))
    ⊎ ((earlier : Entry) × (ttl : Duration) × Memᴰ earlier log
        × (earlier.call.answer ≡ ok (tok, ttl))
        × (call.asked + refresh_margin ttl < earlier.call.stored + ttl))

IsFreshIn-cons :
    (log : List Entry) (e : Entry) (call : Call) (tok : Bytes)
    → IsFreshIn log call tok
    → IsFreshIn (e ∷ log) call tok
IsFreshIn-cons log e call tok (inl h) = inl h
IsFreshIn-cons log e call tok (inr (d, ttl, m, answered, left)) =
    inr (d, ttl, Memᴰ.tail m, answered, left)

fresh_now :
    (log : List Entry) (c : Cache) (call : Call) (tok : Bytes)
    → Replay log c
    → (token call c).0 ≡ ok tok
    → IsFreshIn log call tok
fresh_now log c call tok r h =
    elim (token-IsFresh (calls_of log) c call tok (Replay-Run log c r) h) [
      | inl own ↦ inl own
      | inr (earlier, ttl, made, answered, left) ↦
          let (d, at, same) = Memᴰ-map (λ (e : Entry). e.call) earlier log made in
          inr (
            d,
            ttl,
            at,
            ap (λ (x : Call). x.answer) same ∙ answered,
            subst (λ (x : Call). call.asked + refresh_margin ttl < x.stored + ttl) (sym same) left,
          )
    ]

fresh_entry :
    (log : List Entry) (c : Cache) (e : Entry) (tok : Bytes)
    → Replay log c
    → Memᴰ e log
    → e.result ≡ ok tok
    → IsFreshIn log e.call tok
fresh_entry log c e tok begin m h = elim m [ ]
fresh_entry log c e tok (again {log = before} {c = b} d r at) (Memᴰ.head same) h =
    IsFreshIn-cons before d e.call tok (
      fresh_now before b e.call tok r (
        ap (λ (x : Entry). (token x.call b).0) same
        ∙ ap (λ p. p.0) at
        ∙ ap (λ (x : Entry). x.result) (sym same)
        ∙ h))
fresh_entry log c e tok (again {log = before} {c = b} d r at) (Memᴰ.tail m) h =
    IsFreshIn-cons before d e.call tok (fresh_entry before b e tok r m h)

-- Whatever calls run at once, a token that one of them has returned was fetched by that call
-- itself, or by another while more than the refresh margin of the token's lifetime was still left.
pub concurrent-IsFreshIn :
    (log : List Entry) (s : System) (i : ℕ) (tok : Bytes)
    → Reach log s
    → s.pc i ≡ returned (ok tok)
    → (call : Call) × Memᴰ (record { thread = i; call = call; result = ok tok }) log
      × IsFreshIn log call tok
concurrent-IsFreshIn log s i tok reached at =
    let (replay, once, (call, m)) = Reach-Replay log s i (ok tok) reached at in
    (
      call,
      m,
      fresh_entry log s.cache (record { thread = i; call = call; result = ok tok }) tok replay m
          refl,
    )
