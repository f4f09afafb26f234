-- ===== src/Tests/GuardWitnesses.antt =====
-- The theorems on the guard and on boot, applied.
use maintainerd_sdk.Prelude.{◌≡◌, refl, ◌≢◌, [], ◌∷◌, ◌++◌, some, ok, err, arith, true, none}
use maintainerd_sdk.Text.{Bytes, codes}
use maintainerd_sdk.Auth.{Verifier, str, arr, other, nil, cons, Claims}
use maintainerd_sdk.Mrn.{Mrn, mrn_to_string}
use maintainerd_sdk.Mrn.Grammar.{IsResource}
use maintainerd_sdk.Authz.Guard.Exempt.{IsExempt, check-IsExempt_iff}
use maintainerd_sdk.Authz.Guard.Claimed.{Speaks, caller, allows-Speaks_iff}
use maintainerd_sdk.Authz.Principal.{Principal, allows}
use maintainerd_sdk.Authz.Guard.{Denial, Guard, forbidden, deny_insufficient, admit, deny, check}
use maintainerd_sdk.Authz.Guard.Ladder.{Admits, Refuses}
use maintainerd_sdk.Authz.Guard.Admission.{check-Admits_iff, check-Refuses_iff}
use maintainerd_sdk.Authz.Guard.Denials.{IsConsistent, check-IsConsistent}
use maintainerd_sdk.Authz.Startup.{Config, resolve_guard, log_banner}
use maintainerd_sdk.Authz.Startup.Announced.{Announces, log_banner-Announces}
use maintainerd_sdk.Authz.Startup.Ladder.{IsConfigured, IsRung, enforcing, resolve_guard-IsRung}
use maintainerd_sdk.Authz.Startup.EndToEnd.{IsAuthentic, check-IsAuthentic_iff}
use maintainerd_sdk.Tests.Env.{ascii_only, run_authz}
use maintainerd_sdk.Tests.Data.{
  billing_text, guard, granted_reader, no_context, get_secret, put_secret, config, token_library,
  table,
}
use maintainerd_sdk.Authz.Surface.{Surface}

abbrev good : Bytes
good = codes "good"

abbrev lacks_write : Denial
lacks_write =
    forbidden deny_insufficient
      (codes "requires permission " ++ (codes "secret:write" ++ (codes " on " ++ billing_text)))

reader_admitted : check guard no_context good get_secret ≡ admit granted_reader
unfolding run_authz
reader_admitted = refl

writer_refused : check guard no_context good put_secret ≡ deny lacks_write
unfolding run_authz
writer_refused = refl

check-Admits_iff_example : Admits guard no_context get_secret good granted_reader
check-Admits_iff_example =
    (check-Admits_iff guard no_context get_secret good granted_reader).0 reader_admitted

check-Refuses_iff_example : Refuses guard no_context put_secret good lacks_write
check-Refuses_iff_example =
    (check-Refuses_iff guard no_context put_secret good lacks_write).0 writer_refused

check-IsConsistent_example : IsConsistent guard no_context put_secret good lacks_write
check-IsConsistent_example =
    check-IsConsistent guard no_context put_secret good lacks_write writer_refused

abbrev verifier : Verifier token_library
verifier = record { jwks = tt; issuer = codes "https://auth"; audience = codes "secret" }

abbrev booted : Guard
booted = enforcing token_library config table verifier

config_boots : resolve_guard token_library config table ≡ ok booted
unfolding run_authz
config_boots = refl

resolve_guard-IsRung_example : IsRung token_library config booted × (booted.permissions ≡ table)
resolve_guard-IsRung_example = resolve_guard-IsRung token_library config table booted config_boots

abbrev unreachable : Config
unreachable = record config { jwks_url = codes "down" }

boot_fails : resolve_guard token_library unreachable table ≡ err (codes "unreachable")
unfolding run_authz
boot_fails = refl

log_banner-Announces_example : Announces config table (log_banner booted)
log_banner-Announces_example = log_banner-Announces token_library config table booted config_boots

-- The stand-in principal of the token "good" under the library.
abbrev subject : Principal
subject = record granted_reader {
  tenant = [];
  scopes = codes "secret:read" ∷ [];
  grants = record { action = codes "secret:read"; resource = [] } ∷ [];
}

config-IsConfigured : IsConfigured config
unfolding run_authz
config-IsConfigured = ground arith

subject_admitted : check booted no_context good get_secret ≡ admit subject
unfolding run_authz
subject_admitted = refl

check-IsAuthentic_iff_example :
    IsAuthentic token_library config booted no_context get_secret good subject
check-IsAuthentic_iff_example =
    (check-IsAuthentic_iff token_library config table booted config-IsConfigured config_boots
        no_context get_secret good subject).0
      subject_admitted

abbrev admin_text : Bytes
admin_text = codes "secret:admin=mrn:secret:acme:*:secret/prod/*"

-- The claims of an administrator of one tenant, whose action is a blanket action of the service.
abbrev admin_claims : Claims
admin_claims = record {
  subject = codes "u2";
  tenant = codes "acme";
  scopes = codes "openid" ∷ [];
  raw = (codes "permissions", arr (cons other (cons (str admin_text) nil))) ∷ [];
}

admin-allows : allows (some (caller guard admin_claims)) (codes "secret:read") billing_text ≡ true
unfolding run_authz
admin-allows = refl

allows-Speaks_iff_example :
    (codes "secret:read" ≢ [])
    × ((m : Mrn) × (billing_text ≡ mrn_to_string m)
        × IsResource m
        × Speaks guard admin_claims (codes "secret:read") m)
allows-Speaks_iff_example =
    (allows-Speaks_iff guard admin_claims (codes "secret:read") billing_text).0 admin-allows

abbrev probe : Surface
probe = record get_secret { path = codes "/healthz/live" }

probe_passes : check guard no_context [] probe ≡ (none, none)
unfolding run_authz
probe_passes = refl

check-IsExempt_iff_example : IsExempt table probe
check-IsExempt_iff_example = (check-IsExempt_iff guard no_context probe []).0 probe_passes
