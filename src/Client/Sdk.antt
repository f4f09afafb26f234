-- ===== src/Client/Sdk.antt =====
-- sdk.go: the client that dials the configured services with its credentials. The gRPC dialler, with
-- the options that are passed on to it, is a parameter.
pub mod Wiring
use maintainerd_sdk.Prelude.{
  List, [], ◌∷◌, ◌++◌, Option, none, some, Result, ok, err, if◌then◌else◌,
}
use maintainerd_sdk.Text.{Bytes, ◌==◌}
use maintainerd_sdk.Auth.{GoError, TokenLibrary, Verifier, new_verifier}
use maintainerd_sdk.Client.Credentials.{Credentials, anonymous}

-- The dial options are left out.
pub record SdkConfig (W : Type 0) : Type 0 where
  pub credentials : Option (Credentials W)
  pub secret_addr : Bytes
  pub auth_jwks_url : Bytes
  pub auth_issuer : Bytes
  pub auth_audience : Bytes

-- `if cfg.Credentials == nil { cfg.Credentials = Anonymous{} }`
unfoldable pub credentials_of : {W : Type 0} → SdkConfig W → Credentials W
credentials_of cfg = elim cfg.credentials [ none ↦ anonymous | some creds ↦ creds ]

module _ (L : TokenLibrary) (Conn : Type 0) where
  -- The secret client is known by its connection.
  pub record Client : Type 0 where
    pub secret : Option Conn
    pub auth : Option (Verifier L)
    pub conns : List Conn

  abbrev pub no_client : Client
  no_client = record { secret = none; auth = none; conns = [] }

  -- `Client.Close`, as the connections that it closes.
  unfoldable pub close : Client → List Conn
  close cl = cl.conns

  -- A client or an error, and the connections that were closed on the way.
  abbrev pub Made : Type 0
  Made = Result GoError Client × List Conn

  -- A connection is dialled with the interceptor of the credentials.
  module _ {W : Type 0} (dial : Credentials W → Bytes → Result GoError Conn) where
    unfoldable pub wire_auth : SdkConfig W → Client → Made
    wire_auth cfg cl =
        if cfg.auth_jwks_url == []
        then (ok cl, [])
        else elim (new_verifier L cfg.auth_jwks_url cfg.auth_issuer cfg.auth_audience) [
          | err e ↦ (err e, close cl)
          | ok v ↦ (ok (record cl { auth = some v }), [])
        ]

    -- `sdk.New`
    unfoldable pub new_client : SdkConfig W → Made
    new_client cfg =
        if cfg.secret_addr == []
        then wire_auth cfg no_client
        else elim (dial (credentials_of cfg) cfg.secret_addr) [
          | err e ↦ (err e, close no_client)
          | ok conn ↦
              wire_auth cfg
                (record no_client { secret = some conn; conns = no_client.conns ++ conn ∷ [] })
        ]
