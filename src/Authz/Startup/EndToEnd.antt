-- ===== src/Authz/Startup/EndToEnd.antt =====
-- From the configuration to one request: whom a service that booted in enforcement lets in.
use mathlib.Core.Path.{subst}
use maintainerd_sdk.Prelude.{
  ◌≡◌, refl, sym, ap, ◌∙◌, ◌≢◌, ◌↔◌, inl, inr, true, false, [], some, arith, ok, Result-cases,
  ok-injective,
}
use maintainerd_sdk.Text.{Bytes, Unicode}
use maintainerd_sdk.Text.Maps.{GoMap}
use maintainerd_sdk.Text.Space.{trim_space}
use maintainerd_sdk.Auth.{
  Any, Claims, ParsedToken, TokenLibrary, Verifier, parser_options, claims_of, new_verifier, verify,
}
use maintainerd_sdk.Auth.Verified.{
  checks_both, verify_sound, verify_complete, parser_options_both, new_verifier_sound,
}
use maintainerd_sdk.Authz.Principal.{Principal}
use maintainerd_sdk.Authz.Claims.{principal_of_claims, principal_from_claims, sdk_verify}
use maintainerd_sdk.Authz.Permissions.{Map, is_exempt}
use maintainerd_sdk.Authz.Surface.{Surface}
use maintainerd_sdk.Authz.Guard.{Guard, Context, admit, with_blanket, check}
use maintainerd_sdk.Authz.Guard.Ladder.{Admits, Passes}
use maintainerd_sdk.Authz.Guard.Admission.{check-Admits_iff}
use maintainerd_sdk.Authz.Guard.Authenticator.{Authenticator, Admits-IsAdmitted_iff}
use maintainerd_sdk.Authz.Startup.{Config, resolve_guard}
use maintainerd_sdk.Authz.Startup.Ladder.{
  IsConfigured, enforcing, configured_iff, resolve_configured,
}

module _ ⦃u : Unicode⦄ (L : TokenLibrary) (cfg : Config) where
  -- The JWT library accepts the token under the configured keys, issuer and audience, and the
  -- principal is read from its claims.
  pub record IsToken (token : Bytes) (p : Principal) : Type 0 where
    pub keys : L.Keys
    pub fetched : L.new_keys (trim_space cfg.jwks_url) ≡ ok keys
    pub parsed : ParsedToken
    pub parses :
        L.parse keys (checks_both (trim_space cfg.issuer) (trim_space cfg.audience)) token
        ≡ ok parsed
    pub valid : parsed.valid ≡ true
    pub mc : GoMap Any
    pub claims : parsed.claims ≡ some mc
    pub principal : p ≡ principal_of_claims (claims_of mc)

  sdk_verified :
      (v : Verifier L) (token : Bytes) (c : Claims)
      → verify L v token ≡ ok c
      → sdk_verify L v token ≡ ok (some (principal_of_claims c))
  unfolding sdk_verify principal_from_claims
  sdk_verified v token c h = ground arith

  module _ (v : Verifier L) (good : IsConfigured cfg)
      (made : new_verifier L
          (trim_space cfg.jwks_url)
          (trim_space cfg.issuer)
          (trim_space cfg.audience)
        ≡ ok v) where
    options : parser_options L v ≡ checks_both (trim_space cfg.issuer) (trim_space cfg.audience)
    options =
        let (fetched, issuer, audience) =
          new_verifier_sound L (trim_space cfg.jwks_url) (trim_space cfg.issuer)
            (trim_space cfg.audience) v made in
        parser_options_both L v (λ e. good.1 (sym issuer ∙ e)) (λ e. good.2 (sym audience ∙ e))
        ∙ ap (λ (i : Bytes). checks_both i v.audience) issuer
        ∙ ap (checks_both (trim_space cfg.issuer)) audience

    jwks_fetched : L.new_keys (trim_space cfg.jwks_url) ≡ ok v.jwks
    jwks_fetched =
        (new_verifier_sound L (trim_space cfg.jwks_url) (trim_space cfg.issuer)
          (trim_space cfg.audience) v made).0

    IsToken-sound :
        (token : Bytes) (p : Principal) → sdk_verify L v token ≡ ok (some p) → IsToken token p
    IsToken-sound token p h = elim (Result-cases (verify L v token)) [
      | inl (e, failed) ↦ absurd (unfold sdk_verify in ground arith)
      | inr (c, found) ↦
          let from : p ≡ principal_of_claims c =
            unfold sdk_verify principal_from_claims in ground arith in
          let sound = verify_sound L v token c found in
          record {
            keys = v.jwks;
            fetched = jwks_fetched;
            parsed = sound.parsed;
            parses = ap (λ o. L.parse v.jwks o token) (sym options) ∙ sound.parses;
            valid = sound.valid;
            mc = sound.mc;
            claims = sound.claims;
            principal = from ∙ ap principal_of_claims sound.from;
          }
    ]

    IsToken-complete :
        (token : Bytes) (p : Principal) → IsToken token p → sdk_verify L v token ≡ ok (some p)
    IsToken-complete token p t =
        let keys : t.keys ≡ v.jwks = ok-injective _ _ (sym t.fetched ∙ jwks_fetched) in
        let verified : verify L v token ≡ ok (claims_of t.mc) =
          verify_complete L v token (claims_of t.mc) (record {
            parsed = t.parsed;
            mc = t.mc;
            parses =
                ap (λ o. L.parse v.jwks o token) options
                ∙ ap
                    (λ (k : L.Keys).
                      L.parse k (checks_both (trim_space cfg.issuer) (trim_space cfg.audience))
                        token)
                    (sym keys)
                ∙ t.parses;
            claims = t.claims;
            valid = t.valid;
            from = refl;
          }) in
        sdk_verified v token (claims_of t.mc) verified ∙ ap (λ q. ok (some q)) (sym t.principal)

    -- `SDKVerify` is an authenticator for the tokens of the configuration.
    sdk_authenticator : Authenticator
    sdk_authenticator = record {
      verify = λ ctx token. sdk_verify L v token;
      Vouches = IsToken;
      verify_iff = λ ctx token p. (IsToken-sound token p, IsToken-complete token p);
    }

module _ ⦃u : Unicode⦄ (L : TokenLibrary) (cfg : Config) (g : Guard) (ctx : Context)
    (s : Surface) where
  -- The surface is not exempt; the token was presented and stands for a principal, whom the guard
  -- gives the service's blanket actions and the allowlist lets pass.
  pub record IsAuthentic (token : Bytes) (p : Principal) : Type 0 where
    pub guarded : is_exempt g.permissions s ≡ false
    pub presented : token ≢ []
    pub stands_for : Principal
    pub vouched : IsToken L cfg token stands_for
    pub carries : p ≡ with_blanket g stands_for
    pub passes : Passes g ctx s p

guarded_of :
    ⦃u : Unicode⦄ {g : Guard} {ctx : Context} {s : Surface} {token : Bytes} {p : Principal}
    → Admits g ctx s token p
    → is_exempt g.permissions s ≡ false
guarded_of (Admits.development open_ m e) = open_
guarded_of (Admits.verified open_ m c passes) = open_

module _ ⦃u : Unicode⦄ (L : TokenLibrary) (cfg : Config) (permissions : Map) (v : Verifier L)
    (good : IsConfigured cfg)
    (made : new_verifier L
        (trim_space cfg.jwks_url)
        (trim_space cfg.issuer)
        (trim_space cfg.audience)
      ≡ ok v) where
  abbrev booted : Guard
  booted = enforcing L cfg permissions v

  Admits-IsAuthentic :
      (ctx : Context) (s : Surface) (token : Bytes) (p : Principal)
      → Admits booted ctx s token p ↔ IsAuthentic L cfg booted ctx s token p
  unfolding sdk_authenticator
  Admits-IsAuthentic ctx s token p = (
    λ a.
        let open_ = guarded_of a in
        let d =
          (Admits-IsAdmitted_iff (sdk_authenticator L cfg v good made) booted ctx s token p refl
              refl open_).0
            a in
        record {
          guarded = open_;
          presented = d.presented;
          stands_for = d.stands_for;
          vouched = d.vouched;
          carries = d.carries;
          passes = d.passes;
        },
    λ d.
        (Admits-IsAdmitted_iff (sdk_authenticator L cfg v good made) booted ctx s token p refl refl
            d.guarded).1
          (record {
            presented = d.presented;
            stands_for = d.stands_for;
            vouched = d.vouched;
            carries = d.carries;
            passes = d.passes;
          }),
  )

module _ ⦃u : Unicode⦄ (L : TokenLibrary) (cfg : Config) (permissions : Map) (g : Guard)
    (good : IsConfigured cfg) (boots : resolve_guard L cfg permissions ≡ ok g) where
  -- Whom the ladder of a booted service admits.
  pub booted-IsAuthentic :
      (ctx : Context) (s : Surface) (token : Bytes) (p : Principal)
      → Admits g ctx s token p ↔ IsAuthentic L cfg g ctx s token p
  booted-IsAuthentic ctx s token p =
      let (v, made, e) =
        resolve_configured L cfg permissions g ((configured_iff cfg).1 good) boots in
      subst (λ r. Admits r ctx s token p ↔ IsAuthentic L cfg r ctx s token p) (sym e)
        (Admits-IsAuthentic L cfg permissions v good made ctx s token p)

  -- A service that boots with all three settings admits a caller exactly if the surface is not
  -- exempt, the JWT library accepts the presented token under the configured key set, issuer and
  -- audience and under RS256 or ES256 only, as valid and with a claim map, and the principal that
  -- the claims spell, with the service's blanket actions, passes the allowlist.
  pub check-IsAuthentic_iff :
      (ctx : Context) (s : Surface) (token : Bytes) (p : Principal)
      → (check g ctx token s ≡ admit p) ↔ IsAuthentic L cfg g ctx s token p
  check-IsAuthentic_iff ctx s token p =
      let (down, up) = check-Admits_iff g ctx s token p in
      let (out, back) = booted-IsAuthentic ctx s token p in (λ h. out (down h), λ h. up (back h))
