-- ===== src/Authz/Startup.antt =====
-- authz/startup.go: the posture that a service resolves at boot, and the banner that names it.
pub mod Ladder
pub mod EndToEnd
pub mod Announced
pub mod Service
pub mod Streams
use maintainerd_sdk.Prelude.{
  Bool, true, false, not, ◌&&◌, List, [], ◌∷◌, ◌++◌, Option, none, some, Result, ok, err,
  if◌then◌else◌,
}
use maintainerd_sdk.Text.{Bytes, codes, ◌==◌, join, Unicode}
use maintainerd_sdk.Text.Space.{trim_space}
use maintainerd_sdk.Auth.{GoError, TokenLibrary, Verifier, new_verifier}
use maintainerd_sdk.Authz.Claims.{sdk_verify}
use maintainerd_sdk.Authz.Permissions.{Map}
use maintainerd_sdk.Authz.Guard.{
  Mode, enforced, dev_open, unavailable, unnamed, mode_to_string, dev_open_subject, Guard,
  guard_permissions,
}

abbrev pub env_jwks_url : Bytes
env_jwks_url = codes "AUTH_JWKS_URL"

abbrev pub env_issuer : Bytes
env_issuer = codes "AUTH_ISSUER"

abbrev pub env_audience : Bytes
env_audience = codes "AUTH_AUDIENCE"

pub record Config : Type 0 where
  pub jwks_url : Bytes
  pub issuer : Bytes
  pub audience : Bytes
  pub development : Bool
  pub service : Bytes
  pub dev_open_warnings : List Bytes

-- `if value == "" { missing = append(missing, name) }`
abbrev note_missing : Bytes → Bytes → List Bytes → List Bytes
note_missing value name missing = if value == [] then missing ++ name ∷ [] else missing

unfoldable pub missing_reason : Bytes → Bytes → Bytes → Bytes
missing_reason jwks issuer audience =
    let missing =
      note_missing audience env_audience
        (note_missing issuer env_issuer (note_missing jwks env_jwks_url [])) in
    elim missing [ [] ↦ [] | name ∷ names ↦ join (name ∷ names) (codes ", ") ++ codes " not set" ]

-- The guard before its posture is decided.
abbrev pub unresolved : Config → Map → Mode → Bytes → Guard
unresolved cfg permissions mode reason = record {
  mode = mode;
  verify = none;
  permissions = permissions;
  resource = none;
  service = cfg.service;
  reason = reason;
  dev_open_warnings = cfg.dev_open_warnings;
  write_error = none;
}

module _ ⦃u : Unicode⦄ (L : TokenLibrary) where
  -- `authz.Resolve`
  unfoldable pub resolve_guard : Config → Map → Result GoError Guard
  resolve_guard cfg permissions =
      let jwks = trim_space cfg.jwks_url in
      let issuer = trim_space cfg.issuer in
      let audience = trim_space cfg.audience in
      if not (jwks == []) && (not (issuer == []) && not (audience == []))
      then (elim (new_verifier L jwks issuer audience) [
        | err e ↦ err e
        | ok v ↦
            let g = unresolved cfg permissions enforced [] in
            ok (record g { verify = some (λ ctx token. sdk_verify L v token) })
      ])
      else (let reason = missing_reason jwks issuer audience in
          if cfg.development
          then ok (unresolved cfg permissions dev_open reason)
          else ok (unresolved cfg permissions unavailable reason))

-- The calls of `slog`: a level, a message, and the attributes.
pub data Level : Type 0 where
  info warn error : Level

pub record LogLine : Type 0 where
  pub level : Level
  pub message : Bytes
  pub attributes : List (Bytes × Bytes)

abbrev warning : Bytes → LogLine
warning message = record { level = warn; message = message; attributes = [] }

-- The three bytes of U+2014.
abbrev em_dash : Bytes
em_dash = 0xe2 ∷ 0x80 ∷ 0x94 ∷ []

abbrev rule_line : Bytes
rule_line = codes "====================================================================="

unfoldable pub warning_lines : List Bytes → List LogLine
warning_lines [] = []
warning_lines (extra ∷ extras) = warning (codes "  * " ++ extra) ∷ warning_lines extras

abbrev banner_service : Guard → Bytes
banner_service g = if g.service == [] then codes "service" else g.service

unfoldable pub dev_open_banner : Guard → List LogLine
dev_open_banner g =
    warning rule_line
    ∷ record {
      level = warn;
      message = codes "AUTHORIZATION IS DISABLED " ++ (em_dash ++ codes " DEVELOPMENT MODE ONLY");
      attributes = (codes "service", banner_service g) ∷ (codes "cause", g.reason) ∷ [];
    }
    ∷ warning (codes "The following guards are OFF on this instance:")
    ∷ warning (
        codes "  * bearer-token authentication "
        ++ (em_dash ++ codes " requests need no credential at all"))
    ∷ warning (
        codes "  * per-action permissions "
        ++ (em_dash ++ codes " every caller is treated as a blanket administrator"))
    ∷ warning (
        codes "  * MRN scoping "
        ++ (em_dash ++ codes " no tenant, project or resource boundary is applied"))
    ∷ (warning_lines g.dev_open_warnings
        ++ warning (
            codes "Audit rows, where written, are attributed to the subject '"
            ++ (dev_open_subject ++ codes "'."))
          ∷ warning (
              codes "Set "
              ++ (env_jwks_url
                  ++ (codes ", "
                      ++ (env_issuer
                          ++ (codes " and " ++ (env_audience ++ codes " to enforce."))))))
          ∷ warning rule_line
          ∷ [])

unfoldable pub unavailable_banner : Guard → List LogLine
unavailable_banner g =
    record {
      level = error;
      message = codes "authorization: UNAVAILABLE " ++ (em_dash ++ codes " the API is disabled");
      attributes =
          (codes "service", banner_service g)
          ∷ (codes "cause", g.reason)
          ∷ (
            codes "effect",
            codes "guarded surfaces answer 503 / Unavailable until auth is configured",
          )
          ∷ [];
    }
    ∷ []

-- The `switch` of `Guard.LogBanner`: what is logged.
unfoldable pub banner_for : Mode → Guard → List LogLine
banner_for enforced g =
    record {
      level = info;
      message = codes "authorization: ENFORCED";
      attributes =
          (codes "service", banner_service g)
          ∷ (codes "mode", mode_to_string g.mode)
          ∷ (codes "permissions", join (guard_permissions g) (codes " "))
          ∷ [];
    }
    ∷ []
banner_for dev_open g = dev_open_banner g
banner_for unavailable g = unavailable_banner g
banner_for (unnamed n) g = unavailable_banner g

unfoldable pub log_banner : Guard → List LogLine
log_banner g = banner_for g.mode g
