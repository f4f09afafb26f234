-- ===== src/Client/Tokens/Endpoint.antt =====
-- What the fetch of a token accepts of a token endpoint, and the lifetime that it reads.
use maintainerd_sdk.Prelude.{ℕ, ◌≤◌, ◌<◌, ◌*◌, ◌≡◌, refl, ◌≢◌, ◌↔◌, [], arith, ok}
use maintainerd_sdk.Text.{Bytes}
use maintainerd_sdk.Text.Laws.{eq_iff}
use maintainerd_sdk.Client.Tokens.{
  Duration, TokenResponse, Exchange, answered, unbuilt, unsent, undecoded, Form, HttpClient, second,
  token_ttl, post_token,
}

ttl_exact :
    (expires_in : ℕ)
    → 0 < expires_in
    → expires_in ≤ 9223372036
    → token_ttl expires_in ≡ expires_in * second
unfolding token_ttl
ttl_exact expires_in low high = ground arith

ttl_positive : (expires_in : ℕ) → 0 < token_ttl expires_in
unfolding token_ttl
ttl_positive expires_in = ground arith

ttl_below : (expires_in : ℕ) → token_ttl expires_in < 9223372036854775808
unfolding token_ttl
ttl_below expires_in = ground arith

exact_ttl :
    (expires_in : ℕ)
    → token_ttl expires_in ≡ expires_in * second
    → (0 < expires_in) × (expires_in ≤ 9223372036)
exact_ttl expires_in h =
    let low = ttl_positive expires_in in
    let high = ttl_below expires_in in (omega arith, omega arith)

-- The lifetime that is read is positive and fits a 64-bit duration, whatever the endpoint spells;
-- it is the number of seconds spelled exactly if that is positive and at most 9223372036, about 292
-- years.
pub token_ttl_exact :
    (expires_in : ℕ)
    → (0 < token_ttl expires_in)
      × (token_ttl expires_in < 9223372036854775808)
      × ((token_ttl expires_in ≡ expires_in * second)
          ↔ ((0 < expires_in) × (expires_in ≤ 9223372036)))
token_ttl_exact expires_in = (
  ttl_positive expires_in,
  ttl_below expires_in,
  (exact_ttl expires_in, λ (low, high). ttl_exact expires_in low high),
)

accepted :
    (hc : HttpClient) (endpoint : Bytes) (form : Form) (tok : Bytes) (ttl : Duration) (x : Exchange)
    → hc endpoint form ≡ x
    → post_token hc endpoint form ≡ ok (tok, ttl)
    → (tr : TokenResponse) × (hc endpoint form ≡ answered 200 tr)
      × (tok ≢ [])
      × (tr.access_token ≡ tok)
      × (token_ttl tr.expires_in ≡ ttl)
unfolding post_token
accepted hc endpoint form tok ttl (unbuilt e) at h = absurd (ground arith)
accepted hc endpoint form tok ttl (unsent e) at h = absurd (ground arith)
accepted hc endpoint form tok ttl (undecoded e) at h = absurd (ground arith)
accepted hc endpoint form tok ttl (answered status r) at h =
    let g = eq_iff r.access_token [] in
    (r, ground (arith, g), ground (arith, g), ground (arith, g), ground (arith, g))

-- A token is fetched exactly if the endpoint answers with status 200 and a token that is not empty;
-- it is that token, with the lifetime that the answer spells.
pub post_token_iff :
    (hc : HttpClient) (endpoint : Bytes) (form : Form) (tok : Bytes) (ttl : Duration)
    → (post_token hc endpoint form ≡ ok (tok, ttl)) ↔ (
        (tr : TokenResponse) × (hc endpoint form ≡ answered 200 tr)
        × (tok ≢ [])
        × (tr.access_token ≡ tok)
        × (token_ttl tr.expires_in ≡ ttl))
post_token_iff hc endpoint form tok ttl = (
  accepted hc endpoint form tok ttl (hc endpoint form) refl,
  λ (tr, at, named, same, life). unfold post_token in ground (arith, eq_iff tr.access_token []),
)
