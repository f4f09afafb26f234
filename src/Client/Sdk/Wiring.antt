-- ===== src/Client/Sdk/Wiring.antt =====
-- What `sdk.New` leaves open.
use maintainerd_sdk.Prelude.{
  ◌≡◌, refl, ◌≢◌, ◌⊎◌, inl, inr, List, [], ◌∷◌, none, some, arith, Result, ok, err, Bool-cases,
  Result-cases, if◌then◌else◌,
}
use maintainerd_sdk.Text.{Bytes, ◌==◌}
use maintainerd_sdk.Text.Laws.{eq_iff}
use maintainerd_sdk.Auth.{GoError, TokenLibrary, Verifier, new_verifier}
use maintainerd_sdk.Client.Credentials.{Credentials}
use maintainerd_sdk.Client.Sdk.{
  SdkConfig, credentials_of, Client, no_client, close, Made, wire_auth, new_client,
}

module _ (L : TokenLibrary) (Conn : Type 0) {W : Type 0}
    (dial : Credentials W → Bytes → Result GoError Conn) where
  -- The connections that a configuration dials.
  abbrev pub dialled : SdkConfig W → List Conn
  dialled cfg =
      if cfg.secret_addr == []
      then []
      else elim (dial (credentials_of cfg) cfg.secret_addr) [ err e ↦ [] | ok conn ↦ conn ∷ [] ]

  -- The secret client is there on a connection that was dialled with the credentials, if its address
  -- is configured, and else it is not.
  abbrev pub HasSecret : SdkConfig W → Client L Conn → Type 0
  HasSecret cfg cl =
      ((cfg.secret_addr ≡ []) × (cl.secret ≡ none))
      ⊎ ((cfg.secret_addr ≢ [])
          × ((conn : Conn) × (dial (credentials_of cfg) cfg.secret_addr ≡ ok conn)
              × (cl.secret ≡ some conn)))

  -- The verifier is that of the configured key set, issuer and audience, if there is a URL of keys, and
  -- else there is none.
  abbrev pub HasAuth : SdkConfig W → Client L Conn → Type 0
  HasAuth cfg cl =
      ((cfg.auth_jwks_url ≡ []) × (cl.auth ≡ none))
      ⊎ ((cfg.auth_jwks_url ≢ [])
          × ((v : Verifier L) × (new_verifier L cfg.auth_jwks_url cfg.auth_issuer cfg.auth_audience
                ≡ ok v)
              × (cl.auth ≡ some v)))

  -- What is to hold of a client or an error, and of the closed connections.
  abbrev pub IsWired : SdkConfig W → List Conn → Made L Conn → Type 0
  IsWired cfg conns (ok cl, closed) =
      (closed ≡ []) × (cl.conns ≡ conns) × HasSecret cfg cl × HasAuth cfg cl
  IsWired cfg conns (err e, closed) = closed ≡ conns

  wire_auth-IsWired :
      (cfg : SdkConfig W) (cl : Client L Conn)
      → cl.auth ≡ none
      → HasSecret cfg cl
      → IsWired cfg cl.conns (wire_auth L Conn dial cfg cl)
  unfolding wire_auth close
  wire_auth-IsWired cfg cl bare secret = elim (Bool-cases (cfg.auth_jwks_url == [])) [
    | inl absent ↦
        rw absent (refl, refl, secret, inl ((eq_iff cfg.auth_jwks_url []).0 absent, bare))
    | inr given ↦
        elim (Result-cases (new_verifier L cfg.auth_jwks_url cfg.auth_issuer cfg.auth_audience)) [
          | inl (e, failed) ↦ rw (given, failed) refl
          | inr (v, made) ↦
              let named : cfg.auth_jwks_url ≢ [] = ground (arith, eq_iff cfg.auth_jwks_url []) in
              rw (given, made) (refl, refl, secret, inr (named, (v, made, refl)))
        ]
  ]

  -- A client that is made keeps every dialled connection and has closed none. Its secret client
  -- stands on a connection that was dialled with the configured credentials, or with anonymous ones
  -- if there are none, and its verifier checks the configured issuer and audience under the
  -- configured keys; each is there exactly if it is configured. Where no client is made, every
  -- dialled connection was closed.
  pub new_client-IsWired :
      (cfg : SdkConfig W) → IsWired cfg (dialled cfg) (new_client L Conn dial cfg)
  unfolding new_client close
  new_client-IsWired cfg = elim (Bool-cases (cfg.secret_addr == [])) [
    | inl absent ↦ rw absent (
        wire_auth-IsWired cfg (no_client L Conn) refl
          (inl ((eq_iff cfg.secret_addr []).0 absent, refl)))
    | inr given ↦ elim (Result-cases (dial (credentials_of cfg) cfg.secret_addr)) [
      | inl (e, failed) ↦ rw (given, failed) refl
      | inr (conn, made) ↦
          let named : cfg.secret_addr ≢ [] = ground (arith, eq_iff cfg.secret_addr []) in
          rw (given, made)
            (wire_auth-IsWired cfg (record { secret = some conn; auth = none; conns = conn ∷ [] })
              refl (inr (named, (conn, made, refl))))
    ]
  ]
