-- ===== src/Client/Tokens/Scopes.antt =====
-- The scopes that a client asks for, as a service reads them.
use maintainerd_sdk.Prelude.{
  List, ◌≡◌, refl, sym, ap, ◌∙◌, ◌≢◌, inl, inr, false, [], ◌∷◌, some, All, Bool-cases,
}
use mathlib.Core.Option.{some-injective}
use maintainerd_sdk.Text.{Bytes, codes, ◌==◌, join}
use maintainerd_sdk.Text.Laws.{eq_iff}
use maintainerd_sdk.Text.Maps.{GoMap, lookup}
use maintainerd_sdk.Text.Space.{fields}
use maintainerd_sdk.Text.Space.Fields.{IsWord, fields-nil, fields-join}
use maintainerd_sdk.Auth.{Any, string_claim, claims_of}
use maintainerd_sdk.Client.Tokens.{ClientCredentialsConfig, client_credentials_form, is_none}

some_scope : (ws : List Bytes) → ws ≢ [] → is_none ws ≡ false
some_scope [] h = absurd (h refl)
some_scope (w ∷ ws) h = refl

requested :
    (cfg : ClientCredentialsConfig)
    → cfg.scopes ≢ []
    → lookup (codes "scope") (client_credentials_form cfg) ≡ some (join cfg.scopes (codes " "))
unfolding lookup ◌==◌ client_credentials_form
requested cfg h =
    let there = some_scope cfg.scopes h in
    elim (Bool-cases (cfg.audience == [])) [
      | inl bare ↦ rw (bare, there) refl
      | inr aimed ↦ rw (aimed, there) refl
    ]

read_scopes : (mc : GoMap Any) → (claims_of mc).scopes ≡ fields (string_claim mc (codes "scope"))
unfolding claims_of
read_scopes mc = elim (Bool-cases (string_claim mc (codes "scope") == [])) [
  | inl empty ↦
      let e = (eq_iff (string_claim mc (codes "scope")) []).0 empty in
      rw empty (sym (ap fields e ∙ fields-nil))
  | inr filled ↦ rw filled refl
]

-- If the token's "scope" claim is the text that the client asked for in its form, then the scopes
-- that the verifier reads from it are the client's, one by one and in order; the scopes are words
-- of printable ASCII, and there is one.
pub requested_scopes :
    (cfg : ClientCredentialsConfig) (mc : GoMap Any)
    → All IsWord cfg.scopes
    → cfg.scopes ≢ []
    → lookup (codes "scope") (client_credentials_form cfg) ≡ some (string_claim mc (codes "scope"))
    → (claims_of mc).scopes ≡ cfg.scopes
requested_scopes cfg mc words filled granted =
    let same : join cfg.scopes (codes " ") ≡ string_claim mc (codes "scope") =
      some-injective _ _ (sym (requested cfg filled) ∙ granted) in
    read_scopes mc ∙ ap fields (sym same) ∙ fields-join cfg.scopes words
