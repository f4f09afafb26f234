-- ===== src/Client/Assertion/Signed.antt =====
-- What a signed client assertion says.
use maintainerd_sdk.Prelude.{
  ◌≤◌, ◌+◌, ◌*◌, ◌/◌, ◌≡◌, refl, inl, inr, arith, Result, ok, Result-cases,
}
use maintainerd_sdk.Text.{Bytes}
use maintainerd_sdk.Auth.{GoError}
use maintainerd_sdk.Client.Tokens.{Time, second}
use maintainerd_sdk.Client.Assertion.{
  Claims, KeyLibrary, epoch, unix, assertion, hex, sign_client_assertion,
}

unix_later : (now : Time) → epoch ≤ now / second → unix (now + 300 * second) ≡ unix now + 300
unix_later now h = omega (arith, h)

-- The claims of an assertion by a client for an endpoint.
pub record IsAssertion (client_id token_endpoint jti : Bytes) (c : Claims) : Type 0 where
  pub iss : c.iss ≡ client_id
  pub sub : c.sub ≡ client_id
  pub aud : c.aud ≡ token_endpoint
  pub unique : c.jti ≡ hex jti
  pub lifetime : c.exp ≡ c.iat + 300

-- Whatever assertion is returned is the signature of claims that name the client as issuer and
-- subject and the token endpoint as the audience, that carry this call's random bytes, and that
-- live for five minutes, on a clock that is not before 1970.
pub sign_client_assertion-IsAssertion :
    (L : KeyLibrary) (key : L.Key) (client_id token_endpoint kid : Bytes)
    (random : Result GoError Bytes) (now : Time) (signed : Bytes)
    → epoch ≤ now / second
    → sign_client_assertion L key client_id token_endpoint kid random now ≡ ok signed
    → (jti : Bytes) × (c : Claims) × (random ≡ ok jti)
      × (L.sign key c ≡ ok signed)
      × IsAssertion client_id token_endpoint jti c
sign_client_assertion-IsAssertion L key client_id token_endpoint kid random now signed h s =
    elim (Result-cases random) [
      | inl (e, failed) ↦ absurd (unfold sign_client_assertion in ground arith)
      | inr (jti, read) ↦ (
        jti,
        assertion client_id token_endpoint kid jti now,
        read,
        unfold sign_client_assertion in ground arith,
        record { iss = refl; sub = refl; aud = refl; unique = refl; lifetime = unix_later now h },
      )
    ]
