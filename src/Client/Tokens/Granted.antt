-- ===== src/Client/Tokens/Granted.antt =====
-- The client-credentials grant from its configuration to a token: what is asked, and when it is had.
use mathlib.Core.List.{Memᴰ}
use maintainerd_sdk.Prelude.{
  ◌≡◌, refl, sym, ap, ◌∙◌, ◌≢◌, ◌↔◌, inl, inr, Bool, true, false, not, ◌||◌, List, [], ◌∷◌, none,
  some, arith, Result, ok, All, All-append, Bool-cases, ok-injective, if◌then◌else◌,
}
use maintainerd_sdk.Text.{Bytes, codes, ◌==◌, join}
use maintainerd_sdk.Text.Laws.{eq_iff}
use maintainerd_sdk.Text.Maps.{lookup}
use maintainerd_sdk.Client.Tokens.{
  Duration, TokenError, TokenResponse, answered, Form, HttpClient, token_ttl, post_token, is_none,
  ClientCredentialsConfig, client_credentials_form, client_credentials,
}
use maintainerd_sdk.Client.Tokens.Endpoint.{post_token_iff}

-- The form says who asks and for what, and says nothing else.
pub record IsRequest (cfg : ClientCredentialsConfig) (form : Form) : Type 0 where
  pub grant_type : lookup (codes "grant_type") form ≡ some (codes "client_credentials")
  pub client_id : lookup (codes "client_id") form ≡ some cfg.client_id
  pub client_secret : lookup (codes "client_secret") form ≡ some cfg.client_secret
  pub audience :
      lookup (codes "audience") form ≡ (if cfg.audience == [] then none else some cfg.audience)
  pub scope :
      lookup (codes "scope") form
      ≡ (if is_none cfg.scopes then none else some (join cfg.scopes (codes " ")))
  pub only :
      All
        (λ e. Memᴰ e.0 (
          codes "grant_type"
          ∷ codes "client_id"
          ∷ codes "client_secret"
          ∷ codes "audience"
          ∷ codes "scope"
          ∷ []))
        form

asked_audience :
    (cfg : ClientCredentialsConfig)
    → lookup (codes "audience") (client_credentials_form cfg)
      ≡ (if cfg.audience == [] then none else some cfg.audience)
unfolding client_credentials_form lookup ◌==◌
asked_audience cfg =
    let plain = Bool-cases (is_none cfg.scopes) in
    elim (Bool-cases (cfg.audience == [])) [
      | inr aimed ↦ rw aimed refl
      | inl bare ↦ elim plain [
        | inl unscoped ↦ rw (bare, unscoped) refl
        | inr scoped ↦ rw (bare, scoped) refl
      ]
    ]

asked_scope :
    (cfg : ClientCredentialsConfig)
    → lookup (codes "scope") (client_credentials_form cfg)
      ≡ (if is_none cfg.scopes then none else some (join cfg.scopes (codes " ")))
unfolding client_credentials_form lookup ◌==◌
asked_scope cfg = elim (Bool-cases (cfg.audience == [])) [
  | inl bare ↦ elim (Bool-cases (is_none cfg.scopes)) [
    | inl unscoped ↦ rw (bare, unscoped) refl
    | inr scoped ↦ rw (bare, scoped) refl
  ]
  | inr aimed ↦ elim (Bool-cases (is_none cfg.scopes)) [
    | inl unscoped ↦ rw (aimed, unscoped) refl
    | inr scoped ↦ rw (aimed, scoped) refl
  ]
]

abbrev keys : List Bytes
keys =
    codes "grant_type"
    ∷ codes "client_id"
    ∷ codes "client_secret"
    ∷ codes "audience"
    ∷ codes "scope"
    ∷ []

abbrev IsKnown : Form → Type 0
IsKnown = All (λ e. Memᴰ e.0 keys)

optional-IsKnown :
    (b : Bool) (key value : Bytes) → Memᴰ key keys → IsKnown (if b then (key, value) ∷ [] else [])
optional-IsKnown true key value m = (m, tt)
optional-IsKnown false key value m = tt

form-IsRequest : (cfg : ClientCredentialsConfig) → IsRequest cfg (client_credentials_form cfg)
form-IsRequest cfg = record {
  grant_type = unfold client_credentials_form lookup ◌==◌ in refl;
  client_id = unfold client_credentials_form lookup ◌==◌ in refl;
  client_secret = unfold client_credentials_form lookup ◌==◌ in refl;
  audience = asked_audience cfg;
  scope = asked_scope cfg;
  only =
      unfold client_credentials_form in
      (
        Memᴰ.head refl,
        (
          Memᴰ.tail (Memᴰ.head refl),
          (
            Memᴰ.tail (Memᴰ.tail (Memᴰ.head refl)),
            All-append (λ e. Memᴰ e.0 keys) _ _
                (optional-IsKnown (not (cfg.audience == [])) (codes "audience") cfg.audience
                  (Memᴰ.tail (Memᴰ.tail (Memᴰ.tail (Memᴰ.head refl)))))
                (optional-IsKnown (not (is_none cfg.scopes)) (codes "scope")
                  (join cfg.scopes (codes " "))
                  (Memᴰ.tail (Memᴰ.tail (Memᴰ.tail (Memᴰ.tail (Memᴰ.head refl)))))),
          ),
        ),
      );
}

module _ (hc : HttpClient) (cfg : ClientCredentialsConfig) where
  abbrev IsComplete : Type 0
  IsComplete = (cfg.token_endpoint ≢ []) × (cfg.client_id ≢ []) × (cfg.client_secret ≢ [])

  -- The source can be made, and its fetch gives the token.
  abbrev pub Fetches : Bytes → Duration → Type 0
  Fetches tok ttl =
      (fetch : Unit {0} → Result TokenError (Bytes × Duration)) × (client_credentials hc cfg
        ≡ ok fetch)
      × (fetch tt ≡ ok (tok, ttl))

  -- The configuration is complete, and the endpoint answers its one request with a token.
  pub record IsGranted (tok : Bytes) (ttl : Duration) : Type 0 where
    pub endpoint : cfg.token_endpoint ≢ []
    pub client_id : cfg.client_id ≢ []
    pub client_secret : cfg.client_secret ≢ []
    pub request : IsRequest cfg (client_credentials_form cfg)
    pub response : TokenResponse
    pub accepted : hc cfg.token_endpoint (client_credentials_form cfg) ≡ answered 200 response
    pub named : tok ≢ []
    pub token : response.access_token ≡ tok
    pub lifetime : token_ttl response.expires_in ≡ ttl

  fetch_complete :
      (fetch : Unit {0} → Result TokenError (Bytes × Duration))
      → client_credentials hc cfg ≡ ok fetch
      → IsComplete × (fetch ≡ (λ u. post_token hc cfg.token_endpoint (client_credentials_form cfg)))
  unfolding client_credentials
  fetch_complete fetch h =
      elim (Bool-cases
        (cfg.token_endpoint == [] || (cfg.client_id == [] || cfg.client_secret == []))) [
          | inl missing ↦ absurd (ground arith)
          | inr all ↦ (
            ground (
              arith,
              eq_iff cfg.token_endpoint [],
              eq_iff cfg.client_id [],
              eq_iff cfg.client_secret [],
            ),
            ok-injective fetch _ (sym h ∙ rw all refl),
          )
        ]

  IsGranted-sound : (tok : Bytes) (ttl : Duration) → Fetches tok ttl → IsGranted tok ttl
  IsGranted-sound tok ttl (fetch, made, got) =
      let (complete, same) = fetch_complete fetch made in
      let (tr, accepted, named, token, lifetime) =
        (post_token_iff hc cfg.token_endpoint (client_credentials_form cfg) tok ttl).0
          (ap (λ f. f tt) (sym same) ∙ got) in
      record {
        endpoint = complete.0;
        client_id = complete.1;
        client_secret = complete.2;
        request = form-IsRequest cfg;
        response = tr;
        accepted = accepted;
        named = named;
        token = token;
        lifetime = lifetime;
      }

  IsGranted-complete : (tok : Bytes) (ttl : Duration) → IsGranted tok ttl → Fetches tok ttl
  IsGranted-complete tok ttl g = (
    λ u. post_token hc cfg.token_endpoint (client_credentials_form cfg),
    unfold client_credentials in
        ground (
          arith,
          eq_iff cfg.token_endpoint [],
          eq_iff cfg.client_id [],
          eq_iff cfg.client_secret [],
          g.endpoint,
          g.client_id,
          g.client_secret,
        ),
    (post_token_iff hc cfg.token_endpoint (client_credentials_form cfg) tok ttl).1
        (g.response, g.accepted, g.named, g.token, g.lifetime),
  )

  -- A client-credentials source can be made and fetches a token exactly if an endpoint, a client
  -- and a secret are configured, and the endpoint answers with status 200 and that token to a form
  -- which names the grant, the client, its secret, and the audience and the scopes if there are
  -- any, and nothing else.
  pub client_credentials-IsGranted_iff :
      (tok : Bytes) (ttl : Duration) → Fetches tok ttl ↔ IsGranted tok ttl
  client_credentials-IsGranted_iff tok ttl = (IsGranted-sound tok ttl, IsGranted-complete tok ttl)
