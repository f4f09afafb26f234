-- ===== src/Auth/Verified.antt =====
-- What `Verifier.Verify` asks of the JWT library before it returns claims.
use maintainerd_sdk.Prelude.{
  ◌≡◌, sym, ap, ◌∙◌, ◌≢◌, inl, inr, true, [], ◌∷◌, some, arith, ok, Bool-cases, Option-cases,
  Result-cases, ok-injective,
}
use maintainerd_sdk.Text.{Bytes, codes, ◌==◌}
use maintainerd_sdk.Text.Laws.{eq_iff}
use maintainerd_sdk.Text.Maps.{GoMap}
use maintainerd_sdk.Auth.{
  Any, Claims, ParserOptions, ParsedToken, TokenLibrary, Verifier, new_verifier, parser_options,
  claims_of, accept_token, verify,
}

abbrev pub checks_both : Bytes → Bytes → ParserOptions
checks_both issuer audience = record {
  valid_methods = codes "RS256" ∷ codes "ES256" ∷ [];
  issuer = some issuer;
  audience = some audience;
}

accepted :
    (parsed : ParsedToken) (c : Claims)
    → accept_token parsed ≡ ok c
    → (mc : GoMap Any) × (parsed.claims ≡ some mc) × (parsed.valid ≡ true) × (c ≡ claims_of mc)
accepted parsed c h = elim (Option-cases parsed.claims) [
  | inl missing ↦ absurd (unfold accept_token in ground arith)
  | inr (mc, found) ↦ elim (Bool-cases parsed.valid) [
    | inr bad ↦ absurd (unfold accept_token in ground arith)
    | inl good ↦
        let at : accept_token parsed ≡ ok (claims_of mc) = unfold accept_token in ground arith in
        (mc, found, good, ok-injective c (claims_of mc) (sym h ∙ at))
  ]
]

module _ (L : TokenLibrary) where
  -- The library accepted the token under the verifier's options, as valid and with a claim map, and
  -- the claims are those of that map.
  pub record IsVerified (v : Verifier L) (token : Bytes) (c : Claims) : Type 0 where
    pub parsed : ParsedToken
    pub mc : GoMap Any
    pub parses : L.parse v.jwks (parser_options L v) token ≡ ok parsed
    pub claims : parsed.claims ≡ some mc
    pub valid : parsed.valid ≡ true
    pub from : c ≡ claims_of mc

  pub verify_sound :
      (v : Verifier L) (token : Bytes) (c : Claims) → verify L v token ≡ ok c → IsVerified v token c
  verify_sound v token c h = elim (Result-cases (L.parse v.jwks (parser_options L v) token)) [
    | inl (e, failed) ↦ absurd (unfold verify in ground arith)
    | inr (parsed, parses) ↦
        let inner : accept_token parsed ≡ ok c = unfold verify in ground arith in
        let (mc, claims, valid, from) = accepted parsed c inner in
        record {
          parsed = parsed;
          mc = mc;
          parses = parses;
          claims = claims;
          valid = valid;
          from = from;
        }
  ]

  pub verify_complete :
      (v : Verifier L) (token : Bytes) (c : Claims) → IsVerified v token c → verify L v token ≡ ok c
  unfolding verify accept_token
  verify_complete v token c s = rw (s.parses, s.claims, s.valid) (ap ok (sym s.from))

  -- A verifier made with an issuer and an audience has both checked.
  pub parser_options_both :
      (v : Verifier L)
      → v.issuer ≢ []
      → v.audience ≢ []
      → parser_options L v ≡ checks_both v.issuer v.audience
  unfolding parser_options
  parser_options_both v i a = ground (arith, eq_iff v.issuer [], eq_iff v.audience [])

  pub new_verifier_sound :
      (url issuer audience : Bytes) (v : Verifier L)
      → new_verifier L url issuer audience ≡ ok v
      → (L.new_keys url ≡ ok v.jwks) × (v.issuer ≡ issuer) × (v.audience ≡ audience)
  new_verifier_sound url issuer audience v h = elim (Bool-cases (url == [])) [
    | inl nothing ↦ absurd (unfold new_verifier in ground arith)
    | inr given ↦ elim (Result-cases (L.new_keys url)) [
      | inl (e, failed) ↦ absurd (unfold new_verifier in ground arith)
      | inr (k, made) ↦
          let w : Verifier L = record { jwks = k; issuer = issuer; audience = audience } in
          let at : new_verifier L url issuer audience ≡ ok w =
            unfold new_verifier in ground arith in
          let e : v ≡ w = ok-injective v w (sym h ∙ at) in
          (
            made ∙ ap (λ (x : Verifier L). ok x.jwks) (sym e),
            ap (λ (x : Verifier L). x.issuer) e,
            ap (λ (x : Verifier L). x.audience) e,
          )
    ]
  ]
