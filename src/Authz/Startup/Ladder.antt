-- ===== src/Authz/Startup/Ladder.antt =====
-- The three rungs of `authz.Resolve`, and what an enforcing guard asks of a token.
use maintainerd_sdk.Prelude.{
  ◌≡◌, sym, ap, ◌∙◌, ◌≢◌, ◌↔◌, inl, inr, Bool, true, false, not, ◌&&◌, [], some, arith, ok, err,
  Bool-cases, Result-cases, ok-injective, if◌then◌else◌,
}
use maintainerd_sdk.Text.{◌==◌, Unicode}
use maintainerd_sdk.Text.Laws.{eq_iff}
use maintainerd_sdk.Text.Space.{trim_space}
use maintainerd_sdk.Auth.{GoError, TokenLibrary, Verifier, new_verifier}
use maintainerd_sdk.Authz.Claims.{sdk_verify}
use maintainerd_sdk.Authz.Permissions.{Map}
use maintainerd_sdk.Authz.Guard.{enforced, dev_open, unavailable, Guard}
use maintainerd_sdk.Authz.Startup.{Config, missing_reason, unresolved, resolve_guard}

-- All three settings are there, each with something other than white space.
abbrev pub IsConfigured : Config → Type 0
IsConfigured cfg =
    (trim_space cfg.jwks_url ≢ []) × (trim_space cfg.issuer ≢ []) × (trim_space cfg.audience ≢ [])

abbrev pub configured : Config → Bool
configured cfg =
    not (trim_space cfg.jwks_url == [])
    && (not (trim_space cfg.issuer == []) && not (trim_space cfg.audience == []))

pub configured_iff : (cfg : Config) → (configured cfg ≡ true) ↔ IsConfigured cfg
configured_iff cfg = ground (
  arith,
  eq_iff (trim_space cfg.jwks_url) [],
  eq_iff (trim_space cfg.issuer) [],
  eq_iff (trim_space cfg.audience) [],
)

module _ ⦃u : Unicode⦄ (L : TokenLibrary) where
  -- The guard that enforces with a verifier.
  abbrev pub enforcing : Config → Map → Verifier L → Guard
  enforcing cfg permissions v =
      let g = unresolved cfg permissions enforced [] in
      record g { verify = some (λ ctx token. sdk_verify L v token) }

  pub resolve_configured :
      (cfg : Config) (permissions : Map) (g : Guard)
      → configured cfg ≡ true
      → resolve_guard L cfg permissions ≡ ok g
      → (v : Verifier L) × (new_verifier L
            (trim_space cfg.jwks_url)
            (trim_space cfg.issuer)
            (trim_space cfg.audience)
          ≡ ok v)
        × (g ≡ enforcing cfg permissions v)
  resolve_configured cfg permissions g c h =
      elim (Result-cases (
        new_verifier L (trim_space cfg.jwks_url) (trim_space cfg.issuer)
          (trim_space cfg.audience))) [
            | inl (e, failed) ↦ absurd (unfold resolve_guard in ground arith)
            | inr (v, made) ↦
                let at : resolve_guard L cfg permissions ≡ ok (enforcing cfg permissions v) =
                  unfold resolve_guard in ground arith in
                (v, made, ok-injective g (enforcing cfg permissions v) (sym h ∙ at))
          ]

  pub resolve_unconfigured :
      (cfg : Config) (permissions : Map)
      → configured cfg ≡ false
      → resolve_guard L cfg permissions
        ≡ ok (
            unresolved cfg permissions (if cfg.development then dev_open else unavailable) (
              missing_reason
                (trim_space cfg.jwks_url)
                (trim_space cfg.issuer)
                (trim_space cfg.audience)))
  unfolding resolve_guard
  resolve_unconfigured cfg permissions c = elim (Bool-cases cfg.development) [
    | inl dev ↦ ground arith
    | inr prod ↦ ground arith
  ]

  -- The rungs by which a configuration decides a guard's posture.
  pub data IsRung (cfg : Config) (g : Guard) : Type 0 where
    enforces :
        IsConfigured cfg
        → g.mode ≡ enforced
        → (v : Verifier L) → g.verify ≡ some (λ ctx token. sdk_verify L v token)
        → IsRung cfg g
    opens : (¬ IsConfigured cfg) → cfg.development ≡ true → g.mode ≡ dev_open → IsRung cfg g
    closes : (¬ IsConfigured cfg) → cfg.development ≡ false → g.mode ≡ unavailable → IsRung cfg g

  pub unconfigured : (cfg : Config) → configured cfg ≡ false → ¬ IsConfigured cfg
  unconfigured cfg c h = cc ((configured_iff cfg).1 h)

  -- A service that boots enforces with a verifier if all three settings are there; else it is open
  -- in development and unavailable anywhere else. No partial configuration enforces or opens by
  -- itself, and the permission table is the one that was given.
  pub resolve_guard-IsRung :
      (cfg : Config) (permissions : Map) (g : Guard)
      → resolve_guard L cfg permissions ≡ ok g
      → IsRung cfg g × (g.permissions ≡ permissions)
  resolve_guard-IsRung cfg permissions g h = elim (Bool-cases (configured cfg)) [
    | inl c ↦
        let (v, made, e) = resolve_configured cfg permissions g c h in
        (
          IsRung.enforces ((configured_iff cfg).0 c) (ap (λ (r : Guard). r.mode) e) v
              (ap (λ (r : Guard). r.verify) e),
          ap (λ (r : Guard). r.permissions) e,
        )
    | inr c ↦
        let mode = if cfg.development then dev_open else unavailable in
        let reason =
          missing_reason (trim_space cfg.jwks_url) (trim_space cfg.issuer)
            (trim_space cfg.audience) in
        let e : g ≡ unresolved cfg permissions mode reason =
          ok-injective g _ (sym h ∙ resolve_unconfigured cfg permissions c) in
        (
          elim (Bool-cases cfg.development) [
            | inl dev ↦
                IsRung.opens (unconfigured cfg c) dev
                  (ap (λ (r : Guard). r.mode) e ∙ ap (λ b. if b then dev_open else unavailable) dev)
            | inr prod ↦
                IsRung.closes (unconfigured cfg c) prod (
                  ap (λ (r : Guard). r.mode) e ∙ ap (λ b. if b then dev_open else unavailable) prod)
          ],
          ap (λ (r : Guard). r.permissions) e,
        )
  ]

  -- `Resolve` fails only where all three settings are there and the verifier cannot be made.
  resolve_guard_error :
      (cfg : Config) (permissions : Map) (e : GoError)
      → resolve_guard L cfg permissions ≡ err e
      → IsConfigured cfg × (L.new_keys (trim_space cfg.jwks_url) ≡ err e)
  resolve_guard_error cfg permissions e h = elim (Bool-cases (configured cfg)) [
    | inr c ↦ let fine = resolve_unconfigured cfg permissions c in absurd (ground arith)
    | inl c ↦
        let good = (configured_iff cfg).0 c in
        elim (Result-cases (L.new_keys (trim_space cfg.jwks_url))) [
          | inl (e', failed) ↦ (
            good,
            unfold resolve_guard new_verifier in
                ground (arith, eq_iff (trim_space cfg.jwks_url) []),
          )
          | inr (k, made) ↦ absurd (
              unfold resolve_guard new_verifier in
              ground (arith, eq_iff (trim_space cfg.jwks_url) []))
        ]
  ]
