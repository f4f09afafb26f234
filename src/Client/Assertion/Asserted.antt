-- ===== src/Client/Assertion/Asserted.antt =====
-- The private_key_jwt grant from its configuration to a token.
use maintainerd_sdk.Prelude.{
  ◌≤◌, ◌/◌, ◌≡◌, refl, sym, ap, ◌∙◌, ◌≢◌, ◌⊎◌, inl, inr, ◌||◌, [], Option, none, some, arith,
  Result, ok, err, Bool-cases, Option-cases, Result-cases, ok-injective,
}
use maintainerd_sdk.Text.{Bytes, codes, ◌==◌}
use maintainerd_sdk.Text.Maps.{lookup}
use maintainerd_sdk.Auth.{GoError}
use maintainerd_sdk.Client.Tokens.{
  Time, Duration, second, TokenError, TokenResponse, answered, HttpClient, token_ttl, post_token,
}
use maintainerd_sdk.Client.Tokens.Endpoint.{post_token_iff}
use maintainerd_sdk.Client.Assertion.{
  Claims, KeyLibrary, epoch, sign_client_assertion, parse_pkcs8_key, parse_rsa_private_key,
  PrivateKeyConfig, private_key_form, fetch_signed, private_key_jwt,
}
use maintainerd_sdk.Client.Assertion.Signed.{IsAssertion, sign_client_assertion-IsAssertion}

module _ (L : KeyLibrary) where
  -- The key is the one of the text's first block: in PKCS#1, or else an RSA key in PKCS#8.
  pub record IsKeyOf (pem : Bytes) (key : L.Key) : Type 0 where
    pub block : Bytes
    pub found : L.pem_block pem ≡ some block
    pub read :
        (L.parse_pkcs1 block ≡ ok key)
        ⊎ ((e : GoError) × (L.parse_pkcs1 block ≡ err e) × (L.parse_pkcs8 block ≡ ok (some key)))

  pkcs8_sound :
      (block : Bytes) (key : L.Key) (x : Result GoError (Option L.Key))
      → L.parse_pkcs8 block ≡ x
      → parse_pkcs8_key L block ≡ ok key
      → L.parse_pkcs8 block ≡ ok (some key)
  unfolding parse_pkcs8_key
  pkcs8_sound block key (err e) at h = absurd (ground arith)
  pkcs8_sound block key (ok none) at h = absurd (ground arith)
  pkcs8_sound block key (ok (some k)) at h = ground arith

  parse_rsa_private_key-IsKeyOf :
      (pem : Bytes) (key : L.Key) → parse_rsa_private_key L pem ≡ ok key → IsKeyOf pem key
  parse_rsa_private_key-IsKeyOf pem key h = elim (Option-cases (L.pem_block pem)) [
    | inl nothing ↦ absurd (unfold parse_rsa_private_key in ground arith)
    | inr (block, found) ↦ record {
      block = block;
      found = found;
      read = elim (Result-cases (L.parse_pkcs1 block)) [
        | inl (e, other_form) ↦ inr (
          e,
          other_form,
          pkcs8_sound block key (L.parse_pkcs8 block) refl
              (unfold parse_rsa_private_key in ground arith),
        )
        | inr (k, plain) ↦ inl (unfold parse_rsa_private_key in ground arith)
      ];
    }
  ]

module _ (L : KeyLibrary) (hc : HttpClient) (cfg : PrivateKeyConfig) where
  -- The source can be made, and its fetch gives the token, with these random bytes and clock.
  abbrev pub FetchesSigned : Result GoError Bytes → Time → Bytes → Duration → Type 0
  FetchesSigned random now tok ttl =
      (fetch : Result GoError Bytes → Time → Result TokenError (Bytes × Duration))
      × (private_key_jwt L hc cfg ≡ ok fetch)
      × (fetch random now ≡ ok (tok, ttl))

  -- The endpoint answered a form that carries an assertion, which the configured key signed.
  pub record IsAsserted (random : Result GoError Bytes) (tok : Bytes) (ttl : Duration)
      : Type 0 where
    pub key : L.Key
    pub configured : IsKeyOf L cfg.private_key_pem key
    pub jti : Bytes
    pub fresh : random ≡ ok jti
    pub claims : Claims
    pub asserts : IsAssertion cfg.client_id cfg.token_endpoint jti claims
    pub signed : Bytes
    pub by_key : L.sign key claims ≡ ok signed
    pub carried : lookup (codes "client_assertion") (private_key_form cfg signed) ≡ some signed
    pub response : TokenResponse
    pub accepted : hc cfg.token_endpoint (private_key_form cfg signed) ≡ answered 200 response
    pub named : tok ≢ []
    pub token : response.access_token ≡ tok
    pub lifetime : token_ttl response.expires_in ≡ ttl

  signed_fetch :
      (key : L.Key) (random : Result GoError Bytes) (now : Time) (tok : Bytes) (ttl : Duration)
      → fetch_signed L hc cfg key random now ≡ ok (tok, ttl)
      → (signed : Bytes) × (sign_client_assertion L key cfg.client_id cfg.token_endpoint cfg.key_id
            random now
          ≡ ok signed)
        × (post_token hc cfg.token_endpoint (private_key_form cfg signed) ≡ ok (tok, ttl))
  signed_fetch key random now tok ttl h =
      elim (Result-cases
        (sign_client_assertion L key cfg.client_id cfg.token_endpoint cfg.key_id random now)) [
          | inl (e, failed) ↦ absurd (unfold fetch_signed in ground arith)
          | inr (signed, made) ↦ (signed, made, unfold fetch_signed in ground arith)
        ]

  made_key :
      (fetch : Result GoError Bytes → Time → Result TokenError (Bytes × Duration))
      → private_key_jwt L hc cfg ≡ ok fetch
      → (key : L.Key) × (parse_rsa_private_key L cfg.private_key_pem ≡ ok key)
        × (fetch ≡ fetch_signed L hc cfg key)
  made_key fetch h =
      elim (Bool-cases
        (cfg.token_endpoint == [] || (cfg.client_id == [] || cfg.private_key_pem == []))) [
          | inl missing ↦ absurd (unfold private_key_jwt in ground arith)
          | inr all ↦ elim (Result-cases (parse_rsa_private_key L cfg.private_key_pem)) [
            | inl (e, failed) ↦ absurd (unfold private_key_jwt in ground arith)
            | inr (key, read) ↦ (
              key,
              read,
              ok-injective fetch _ (sym h ∙ (unfold private_key_jwt in rw (all, read) refl)),
            )
          ]
        ]

  -- A token that a private_key_jwt source fetches, on a clock that is not before 1970, was answered
  -- with status 200 to a form that carries a client assertion. The key of the configuration signed
  -- it, over claims that name the client as issuer and subject and the endpoint as audience, carry
  -- this fetch's random bytes, and live for five minutes.
  pub private_key_jwt-IsAsserted :
      (random : Result GoError Bytes) (now : Time) (tok : Bytes) (ttl : Duration)
      → epoch ≤ now / second
      → FetchesSigned random now tok ttl
      → IsAsserted random tok ttl
  private_key_jwt-IsAsserted random now tok ttl late (fetch, made, got) =
      let (key, read, same) = made_key fetch made in
      let (signed, signs, posted) =
        signed_fetch key random now tok ttl (ap (λ f. f random now) (sym same) ∙ got) in
      let (jti, claims, fresh, by_key, asserts) =
        sign_client_assertion-IsAssertion L key cfg.client_id cfg.token_endpoint cfg.key_id random
          now signed late signs in
      let (response, accepted, named, token, lifetime) =
        (post_token_iff hc cfg.token_endpoint (private_key_form cfg signed) tok ttl).0 posted in
      record {
        key = key;
        configured = parse_rsa_private_key-IsKeyOf L cfg.private_key_pem key read;
        jti = jti;
        fresh = fresh;
        claims = claims;
        asserts = asserts;
        signed = signed;
        by_key = by_key;
        carried = unfold private_key_form lookup ◌==◌ in refl;
        response = response;
        accepted = accepted;
        named = named;
        token = token;
        lifetime = lifetime;
      }
