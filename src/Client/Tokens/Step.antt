-- ===== src/Client/Tokens/Step.antt =====
-- One call of the token source, branch by branch.
use maintainerd_sdk.Prelude.{
  ◌≤◌, ◌+◌, ◌-◌, ◌≡◌, ◌⊎◌, inl, inr, Bool, true, false, not, ◌&&◌, [], arith, ok, err, Bool-cases,
  ltb,
}
use maintainerd_sdk.Text.{Bytes, ◌==◌}
use maintainerd_sdk.Text.Laws.{eq_iff}
use maintainerd_sdk.Client.Tokens.{TokenError, Duration, Cache, Call, refresh_margin, token}

-- The cache has nothing to offer at this time.
abbrev pub Misses : Call → Cache → Type 0
Misses call c = (c.token ≡ []) ⊎ (c.exp ≤ call.asked)

abbrev pub hits : Call → Cache → Bool
hits call c = not (c.token == []) && ltb call.asked c.exp

pub margin_bound : (ttl : Duration) → refresh_margin ttl ≤ ttl
margin_bound ttl = ground arith

pub hit_call : (call : Call) (c : Cache) → hits call c ≡ true → token call c ≡ (ok c.token, c)
unfolding token
hit_call call c h = ground arith

-- The cache once a fetched token is stored.
unfoldable pub stored_cache : Call → Bytes → Duration → Cache
stored_cache call tok ttl = record { token = tok; exp = call.stored + (ttl - refresh_margin ttl) }

pub miss_ok :
    (call : Call) (c : Cache) (tok : Bytes) (ttl : Duration)
    → hits call c ≡ false
    → call.answer ≡ ok (tok, ttl)
    → token call c ≡ (ok tok, stored_cache call tok ttl)
unfolding token stored_cache
miss_ok call c tok ttl h e = ground arith

pub miss_err :
    (call : Call) (c : Cache) (e : TokenError)
    → hits call c ≡ false
    → call.answer ≡ err e
    → token call c ≡ (err e, c)
unfolding token
miss_err call c e h a = ground arith

pub miss_of_hits : (call : Call) (c : Cache) → hits call c ≡ false → Misses call c
miss_of_hits call c h = elim (Bool-cases (c.token == [])) [
  | inl nothing ↦ inl ((eq_iff c.token []).0 nothing)
  | inr some_token ↦ inr (ground arith)
]

pub hits_of_miss : (call : Call) (c : Cache) → Misses call c → hits call c ≡ false
hits_of_miss call c (inl e) = ground (arith, eq_iff c.token [])
hits_of_miss call c (inr late) = ground arith
