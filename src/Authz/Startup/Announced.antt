-- ===== src/Authz/Startup/Announced.antt =====
-- What the banner of a booted service tells its operator.
use mathlib.Core.List.{Memᴰ}
use mathlib.Core.List.Memᴰ
use mathlib.Core.Path.{subst}
use maintainerd_sdk.Prelude.{
  ◌≡◌, refl, sym, ap, ◌∙◌, ◌≢◌, ◌⊎◌, inl, inr, Bool, true, false, List, [], ◌∷◌, ◌++◌, append-nil,
  append_assoc, arith, ok, All, Bool-cases, ok-injective, if◌then◌else◌,
}
use maintainerd_sdk.Text.{Bytes, codes, ◌==◌, Unicode, join}
use maintainerd_sdk.Text.Laws.{eq_iff}
use maintainerd_sdk.Text.Space.{trim_space}
use maintainerd_sdk.Auth.{TokenLibrary, Verifier}
use maintainerd_sdk.Authz.Permissions.{Map, declared_permissions}
use maintainerd_sdk.Authz.Guard.{dev_open, unavailable, Guard, guard_permissions}
use maintainerd_sdk.Authz.Startup.{
  Config, env_jwks_url, env_issuer, env_audience, note_missing, missing_reason, unresolved,
  resolve_guard, info, warn, error, LogLine, dev_open_banner, unavailable_banner, banner_for,
  log_banner,
}
use maintainerd_sdk.Authz.Startup.Ladder.{
  IsConfigured, configured, configured_iff, unconfigured, enforcing, resolve_configured,
  resolve_unconfigured,
}

-- The name stands in the text.
abbrev pub Mentions : Bytes → Bytes → Type 0
Mentions name text = (front : Bytes) × (back : Bytes) × (text ≡ front ++ (name ++ back))

Mentions-behind : (name text back : Bytes) → Mentions name text → Mentions name (text ++ back)
Mentions-behind name text back (f, b, e) = (
  f,
  b ++ back,
  ap (λ t. t ++ back) e
      ∙ append_assoc f (name ++ b) back
      ∙ ap (λ t. f ++ t) (append_assoc name b back),
)

Mentions-before : (name front text : Bytes) → Mentions name text → Mentions name (front ++ text)
Mentions-before name front text (f, b, e) =
    (front ++ f, b, ap (λ t. front ++ t) e ∙ sym (append_assoc front f (name ++ b)))

Mentions-join :
    (name sep : Bytes) (names : List Bytes) → Memᴰ name names → Mentions name (join names sep)
unfolding join
Mentions-join name sep [] m = elim m [ ]
Mentions-join name sep (x ∷ []) (Memᴰ.head e) = ([], [], sym e ∙ sym (append-nil name))
Mentions-join name sep (x ∷ y ∷ names) (Memᴰ.head e) =
    ([], sep ++ join (y ∷ names) sep, ap (λ t. t ++ (sep ++ join (y ∷ names) sep)) (sym e))
Mentions-join name sep (x ∷ []) (Memᴰ.tail m) = elim m [ ]
Mentions-join name sep (x ∷ y ∷ names) (Memᴰ.tail m) =
    Mentions-before name x (sep ++ join (y ∷ names) sep)
      (Mentions-before name sep (join (y ∷ names) sep) (Mentions-join name sep (y ∷ names) m))

-- What is missing is noted, and stays noted.
noted :
    (value name : Bytes) (missing : List Bytes)
    → (value ≢ []) ⊎ Memᴰ name (note_missing value name missing)
noted value name missing = elim (Bool-cases (value == [])) [
  | inl blank ↦ inr (rw blank (Memᴰ.append_right missing (Memᴰ.head refl)))
  | inr filled ↦ inl (ground (arith, eq_iff value []))
]

still_noted :
    (value name other : Bytes) (missing : List Bytes)
    → Memᴰ other missing
    → Memᴰ other (note_missing value name missing)
still_noted value name other missing m = elim (Bool-cases (value == [])) [
  | inl blank ↦ rw blank (Memᴰ.append_left (name ∷ []) m)
  | inr filled ↦ rw filled m
]

-- The text of a list of missing settings.
reason_of : List Bytes → Bytes
reason_of missing = elim missing [
  | [] ↦ []
  | name ∷ names ↦ join (name ∷ names) (codes ", ") ++ codes " not set"
]

reason_of-Mentions :
    (name : Bytes) (missing : List Bytes) → Memᴰ name missing → Mentions name (reason_of missing)
unfolding reason_of
reason_of-Mentions name [] m = elim m [ ]
reason_of-Mentions name (x ∷ names) m =
    Mentions-behind name (join (x ∷ names) (codes ", ")) (codes " not set")
      (Mentions-join name (codes ", ") (x ∷ names) m)

-- Each setting is there, or the text names its variable.
pub record NamesMissing (cfg : Config) (text : Bytes) : Type 0 where
  pub jwks_url : (trim_space cfg.jwks_url ≢ []) ⊎ Mentions env_jwks_url text
  pub issuer : (trim_space cfg.issuer ≢ []) ⊎ Mentions env_issuer text
  pub audience : (trim_space cfg.audience ≢ []) ⊎ Mentions env_audience text

missing_reason-NamesMissing :
    (cfg : Config)
    → NamesMissing cfg
        (missing_reason (trim_space cfg.jwks_url) (trim_space cfg.issuer) (trim_space cfg.audience))
missing_reason-NamesMissing cfg =
    let j = trim_space cfg.jwks_url in
    let i = trim_space cfg.issuer in
    let a = trim_space cfg.audience in
    let one = note_missing j env_jwks_url [] in
    let two = note_missing i env_issuer one in
    let three = note_missing a env_audience two in
    let named : (name : Bytes) → Memᴰ name three → Mentions name (missing_reason j i a) =
      λ name m. unfold missing_reason reason_of in reason_of-Mentions name three m in
    record {
      jwks_url = elim (noted j env_jwks_url []) [
        | inl there ↦ inl there
        | inr m ↦ inr (
            named env_jwks_url (
              still_noted a env_audience env_jwks_url two
                (still_noted i env_issuer env_jwks_url one m)))
      ];
      issuer = elim (noted i env_issuer one) [
        | inl there ↦ inl there
        | inr m ↦ inr (named env_issuer (still_noted a env_audience env_issuer two m))
      ];
      audience = elim (noted a env_audience two) [
        | inl there ↦ inl there
        | inr m ↦ inr (named env_audience m)
      ];
    }

-- What the log lines say of a service with this configuration and permission table: where it is
-- configured, nothing above information, and the permissions that it declares; else a warning or an
-- error with its cause, which names each setting that is missing.
pub data Announces (cfg : Config) (permissions : Map) (lines : List LogLine) : Type 0 where
  quiet :
      IsConfigured cfg
      → All (λ (l : LogLine). l.level ≡ info) lines
      → (l : LogLine) → Memᴰ l lines
      → Memᴰ (codes "permissions", join (declared_permissions permissions) (codes " ")) l.attributes
      → Announces cfg permissions lines
  loud :
      (¬ IsConfigured cfg)
      → (l : LogLine) → Memᴰ l lines
      → l.level ≢ info
      → (cause : Bytes) → Memᴰ (codes "cause", cause) l.attributes
      → NamesMissing cfg cause
      → Announces cfg permissions lines

warn≢info : warn ≢ info
warn≢info e = cc

error≢info : error ≢ info
error≢info e = cc

module _ ⦃u : Unicode⦄ (L : TokenLibrary) (cfg : Config) (permissions : Map) where
  announced_loud :
      (¬ IsConfigured cfg)
      → (b : Bool)
      → Announces cfg permissions (
          log_banner (
            unresolved cfg permissions (if b then dev_open else unavailable) (
              missing_reason
                (trim_space cfg.jwks_url)
                (trim_space cfg.issuer)
                (trim_space cfg.audience))))
  unfolding log_banner banner_for dev_open_banner unavailable_banner
  announced_loud bare true =
      Announces.loud bare _ (Memᴰ.tail (Memᴰ.head refl)) warn≢info _ (Memᴰ.tail (Memᴰ.head refl))
        (missing_reason-NamesMissing cfg)
  announced_loud bare false =
      Announces.loud bare _ (Memᴰ.head refl) error≢info _ (Memᴰ.tail (Memᴰ.head refl))
        (missing_reason-NamesMissing cfg)

  announced_quiet :
      IsConfigured cfg
      → (v : Verifier L) → Announces cfg permissions (log_banner (enforcing L cfg permissions v))
  unfolding log_banner banner_for guard_permissions
  announced_quiet full v =
      Announces.quiet full (refl, tt) _ (Memᴰ.head refl) (Memᴰ.tail (Memᴰ.tail (Memᴰ.head refl)))

  -- The banner of a service that boots tells its posture: it logs at information level only, and
  -- with the permissions that it declares, if all three settings are there; and else it logs a
  -- warning or an error whose cause names every setting that is missing.
  pub log_banner-Announces :
      (g : Guard)
      → resolve_guard L cfg permissions ≡ ok g
      → Announces cfg permissions (log_banner g)
  log_banner-Announces g h = elim (Bool-cases (configured cfg)) [
    | inl c ↦
        let (v, made, e) = resolve_configured L cfg permissions g c h in
        subst (λ r. Announces cfg permissions (log_banner r)) (sym e)
          (announced_quiet ((configured_iff cfg).0 c) v)
    | inr c ↦
        let e = ok-injective g _ (sym h ∙ resolve_unconfigured L cfg permissions c) in
        subst (λ r. Announces cfg permissions (log_banner r)) (sym e)
          (announced_loud (unconfigured L cfg c) cfg.development)
  ]
