-- ===== src/Client/Tokens/Fresh.antt =====
-- How long the cached token source hands a token out.
use mathlib.Core.List.{Memᴰ}
use maintainerd_sdk.Prelude.{
  ◌↔◌, ◌<◌, ◌+◌, ◌-◌, ◌≡◌, refl, sym, ap, ◌∙◌, ◌≢◌, ◌⊎◌, inl, inr, true, List, [], ◌∷◌, arith,
  Result, ok, err, Bool-cases, Result-cases, ok-injective,
}
use maintainerd_sdk.Text.{Bytes}
use maintainerd_sdk.Text.Laws.{eq_iff}
use maintainerd_sdk.Client.Tokens.{
  TokenError, Duration, Cache, empty_cache, Call, refresh_margin, token,
}
use maintainerd_sdk.Client.Tokens.Step.{
  Misses, hits, margin_bound, hit_call, stored_cache, miss_ok, miss_err, miss_of_hits, hits_of_miss,
}

-- The cache after calls one after another, the latest first.
pub data Run : List Call → Cache → Type 0 where
  start : Run [] empty_cache
  next :
      {calls : List Call} {c : Cache} (call : Call)
      → Run calls c
      → Run (call ∷ calls) (token call c).1

-- The cache holds what one of the calls fetched, with the margin taken off its lifetime.
pub record IsFetched (calls : List Call) (c : Cache) : Type 0 where
  pub call : Call
  pub made : Memᴰ call calls
  pub ttl : Duration
  pub answered : call.answer ≡ ok (c.token, ttl)
  pub expiry : c.exp ≡ call.stored + (ttl - refresh_margin ttl)

weaken :
    (call : Call) (calls : List Call) (c : Cache) → IsFetched calls c → IsFetched (call ∷ calls) c
weaken call calls c f = record {
  call = f.call;
  made = Memᴰ.tail f.made;
  ttl = f.ttl;
  answered = f.answered;
  expiry = f.expiry;
}

IsFetched-next :
    (call : Call) (calls : List Call) (c : Cache)
    → (c ≡ empty_cache) ⊎ IsFetched calls c
    → ((token call c).1 ≡ empty_cache) ⊎ IsFetched (call ∷ calls) (token call c).1
IsFetched-next call calls c before =
    let keep : (c ≡ empty_cache) ⊎ IsFetched (call ∷ calls) c = elim before [
      | inl e ↦ inl e
      | inr f ↦ inr (weaken call calls c f)
    ] in
    elim (Bool-cases (hits call c)) [
      | inl hit ↦ rw (hit_call call c hit) keep
      | inr miss ↦ elim (Result-cases call.answer) [
        | inl (e, failed) ↦ rw (miss_err call c e miss failed) keep
        | inr ((tok, ttl), fetched) ↦ rw (miss_ok call c tok ttl miss fetched) (
            inr (record {
              call = call;
              made = Memᴰ.head refl;
              ttl = ttl;
              answered = unfold stored_cache in fetched;
              expiry = unfold stored_cache in refl;
            }))
      ]
    ]

-- Whatever calls were made, the cache is as it was at first, or it holds a token that one of them
-- fetched, and expires the refresh margin before that token does.
Run-IsFetched :
    (calls : List Call) (c : Cache) → Run calls c → (c ≡ empty_cache) ⊎ IsFetched calls c
Run-IsFetched calls c Run.start = inl refl
Run-IsFetched calls c (Run.next {calls = before} {c = d} call r) =
    IsFetched-next call before d (Run-IsFetched before d r)

empty-Misses : (call : Call) (c : Cache) → c ≡ empty_cache → hits call c ≢ true
empty-Misses call c e h =
    let none_held : c.token ≡ [] = ap (λ (d : Cache). d.token) e in
    let miss = hits_of_miss call c (inl none_held) in cc

soon_enough :
    (call earlier : Call) (c : Cache) (ttl : Duration)
    → c.exp ≡ earlier.stored + (ttl - refresh_margin ttl)
    → call.asked < c.exp
    → call.asked + refresh_margin ttl < earlier.stored + ttl
soon_enough call earlier c ttl e left = omega (arith, e, left, margin_bound ttl)

error_not_token :
    (call : Call) (c : Cache) (tok : Bytes) (e : TokenError)
    → token call c ≡ (err e, c)
    → (token call c).0 ≢ ok tok
error_not_token call c tok e at h = cc

token_not_error :
    (call : Call) (c : Cache) (e : TokenError) → hits call c ≡ true → token call c ≢ (err e, c)
token_not_error call c e hit h = let at = hit_call call c hit in cc

stored_not_error :
    (call : Call) (c : Cache) (t : Bytes) (ttl : Duration) (e : TokenError)
    → token call c ≡ (ok t, stored_cache call t ttl)
    → token call c ≢ (err e, c)
stored_not_error call c t ttl e at h = cc

same_error :
    (call : Call) (c : Cache) (e e' : TokenError)
    → token call c ≡ (err e', c)
    → call.answer ≡ err e'
    → token call c ≡ (err e, c)
    → call.answer ≡ err e
same_error call c e e' at failed h = cc

reused_hit :
    (call later : Call) (tok : Bytes) (ttl : Duration)
    → tok ≢ []
    → later.asked + refresh_margin ttl < call.stored + ttl
    → token later (stored_cache call tok ttl) ≡ (ok tok, stored_cache call tok ttl)
unfolding stored_cache
reused_hit call later tok ttl named soon =
    hit_call later (stored_cache call tok ttl) (ground (arith, eq_iff tok [], margin_bound ttl))

-- A token that a call returns was fetched by this very call, or by an earlier one after which more
-- than the refresh margin of the token's lifetime is still left.
pub token-IsFresh :
    (calls : List Call) (c : Cache) (call : Call) (tok : Bytes)
    → Run calls c
    → (token call c).0 ≡ ok tok
    → ((ttl : Duration) × (call.answer ≡ ok (tok, ttl)))
      ⊎ ((earlier : Call) × (ttl : Duration) × Memᴰ earlier calls
          × (earlier.answer ≡ ok (tok, ttl))
          × (call.asked + refresh_margin ttl < earlier.stored + ttl))
token-IsFresh calls c call tok r h = elim (Bool-cases (hits call c)) [
  | inl hit ↦
      let same : c.token ≡ tok = ok-injective c.token tok (rw (hit_call call c hit) at h) in
      elim (Run-IsFetched calls c r) [
        | inl e ↦ absurd (empty-Misses call c e hit)
        | inr f ↦
            let left : call.asked < c.exp = ground arith in
            inr (
              f.call,
              f.ttl,
              f.made,
              f.answered ∙ ap (λ (t : Bytes). ok (t, f.ttl)) same,
              soon_enough call f.call c f.ttl f.expiry left,
            )
      ]
  | inr miss ↦ elim (Result-cases call.answer) [
    | inl (e, failed) ↦ absurd (error_not_token call c tok e (miss_err call c e miss failed) h)
    | inr ((t, ttl), fetched) ↦ inl (
      ttl,
      fetched
          ∙ ap (λ (x : Bytes). ok (x, ttl))
              (ok-injective t tok (
                sym (
                  ap (λ (r : Result TokenError Bytes × Cache). r.0)
                    (miss_ok call c t ttl miss fetched))
                ∙ h)),
    )
  ]
]

-- A token that a call fetches is returned by every call that asks before its expiry less the refresh
-- margin, with no other fetch and no change of the cache.
token_reused :
    (call later : Call) (c : Cache) (tok : Bytes) (ttl : Duration)
    → Misses call c
    → call.answer ≡ ok (tok, ttl)
    → tok ≢ []
    → later.asked + refresh_margin ttl < call.stored + ttl
    → token later (token call c).1 ≡ (ok tok, (token call c).1)
token_reused call later c tok ttl miss fetched named soon =
    rw (miss_ok call c tok ttl (hits_of_miss call c miss) fetched)
      (reused_hit call later tok ttl named soon)

-- A call fails exactly if the cache has nothing to offer and the fetch fails, and then with the
-- error of the fetch; and the cache stays as it was, so that the next call fetches again.
pub token_error_iff :
    (call : Call) (c : Cache) (e : TokenError)
    → (token call c ≡ (err e, c)) ↔ (Misses call c × (call.answer ≡ err e))
token_error_iff call c e = (
  λ h. elim (Bool-cases (hits call c)) [
    | inl hit ↦ absurd (token_not_error call c e hit h)
    | inr miss ↦ elim (Result-cases call.answer) [
      | inl (e', failed) ↦ (
        miss_of_hits call c miss,
        same_error call c e e' (miss_err call c e' miss failed) failed h,
      )
      | inr ((t, ttl), fetched) ↦
          absurd (stored_not_error call c t ttl e (miss_ok call c t ttl miss fetched) h)
    ]
  ],
  λ (miss, failed). miss_err call c e (hits_of_miss call c miss) failed,
)
