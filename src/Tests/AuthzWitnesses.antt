-- ===== src/Tests/AuthzWitnesses.antt =====
-- The theorems on principals, claims, paths and the permission table, applied.
use mathlib.Core.List.{Memᴰ}
use maintainerd_sdk.Prelude.{◌≡◌, refl, ◌∙◌, ◌≢◌, inr, true, [], ◌∷◌, ◌++◌, some, ok, arith}
use maintainerd_sdk.Text.{Bytes, codes}
use maintainerd_sdk.Mrn.{Mrn, star, mrn_to_string, parse}
use maintainerd_sdk.Mrn.Grammar.{IsResource}
use maintainerd_sdk.Mrn.Parsing.{parse_iff}
use maintainerd_sdk.Text.Laws.{Lacks}
use maintainerd_sdk.Text.Space.Trim.{IsTrimmed}
use maintainerd_sdk.Authz.Grant.{Grant, parse_grant, parse_grants, grant_to_string}
use maintainerd_sdk.Authz.Grant.Forms.{IsGrant, parse_grant-grant_to_string_iff}
use maintainerd_sdk.Authz.Principal.{Principal, scope_in, allows}
use maintainerd_sdk.Authz.Principal.Entitlement.{Entitles}
use maintainerd_sdk.Authz.Principal.Decisions.{allows_iff}
use maintainerd_sdk.Authz.Principal.Confinement.{IsConfined, allows_confined, open_entry_unbounded}
use maintainerd_sdk.Authz.Permissions.{resolve, declared_permissions}
use maintainerd_sdk.Authz.Permissions.Declared.{IsListing, declared-IsListing_iff}
use maintainerd_sdk.Authz.Permissions.Abstract.{declares, demand, demand-mk, demand-declares}
use mathlib.Core.Quot
use maintainerd_sdk.Tests.Env.{ascii_only, run_text, run_mrn, run_authz}
use maintainerd_sdk.Tests.Data.{
  billing_text, acme, reads_acme, principal_with, reader, secret_rule, table, get_secret,
}

abbrev read : Bytes
read = codes "secret:read"

reader-allows : allows (some reader) read billing_text ≡ true
unfolding run_authz
reader-allows = refl

allows_iff_example :
    (read ≢ [])
    × ((m : Mrn) × (billing_text ≡ mrn_to_string m) × IsResource m × Entitles reader read m)
allows_iff_example = (allows_iff reader read billing_text).0 reader-allows

reader-IsConfined : (g : Grant) → Memᴰ g reader.grants → IsConfined (codes "acme") g
unfolding run_authz
reader-IsConfined g (Memᴰ.head e) = rw e (record { pattern = acme; parsed = refl; named = refl })
reader-IsConfined g (Memᴰ.tail m) = elim m [ ]

acme_plain : codes "acme" ≢ star
acme_plain = ground arith

allows_confined_example :
    (m : Mrn) × (parse billing_text ≡ ok m) × IsResource m × (m.tenant ≡ codes "acme")
allows_confined_example =
    allows_confined (codes "acme") reader read billing_text acme_plain reader-IsConfined
      reader-allows

-- A resource of another service than the one that the action is named after.
abbrev queue_text : Bytes
queue_text = codes "mrn:queue:other::jobs"

abbrev queue : Mrn
queue = record {
  service = codes "queue";
  tenant = codes "other";
  project = [];
  resource_path = codes "jobs";
}

queue_parses : parse queue_text ≡ ok queue
unfolding run_mrn
queue_parses = refl

read_named : read ≢ []
read_named = ground arith

queue-IsResource : IsResource queue
queue-IsResource = ((parse_iff queue_text queue).0 queue_parses).1

table_declares :
    declared_permissions table ≡ codes "secret:admin" ∷ read ∷ codes "secret:write" ∷ []
unfolding run_authz
table_declares = refl

declared-IsListing_iff_example :
    IsListing table (codes "secret:admin" ∷ read ∷ codes "secret:write" ∷ [])
declared-IsListing_iff_example = (declared-IsListing_iff table _).0 table_declares

get_secret_resolves : resolve table get_secret ≡ some secret_rule
unfolding run_authz
get_secret_resolves = refl

get_secret_demanded : demand (Quot.mk table) get_secret ≡ some secret_rule
get_secret_demanded = demand-mk table get_secret ∙ get_secret_resolves

demand-declares_example : scope_in read (declares (Quot.mk table)) ≡ true
demand-declares_example =
    demand-declares (Quot.mk table) get_secret secret_rule get_secret_demanded read_named

acme_entry : parse_grant (grant_to_string reads_acme) ≡ reads_acme
unfolding run_authz
acme_entry = refl

parse_grant-grant_to_string_iff_example : IsGrant reads_acme
parse_grant-grant_to_string_iff_example = (parse_grant-grant_to_string_iff reads_acme).0 acme_entry

read-IsTrimmed : IsTrimmed read
unfolding run_text
read-IsTrimmed = (refl, refl)

read-Lacks : Lacks b'=' read
read-Lacks = ground arith

-- A principal whose claim entry is `secret:read=`.
abbrev careless : Principal
careless = principal_with (parse_grants ((read ++ b'=' ∷ []) ∷ []))

careless_holds : Memᴰ (parse_grant (read ++ b'=' ∷ [])) careless.grants
unfolding run_authz
careless_holds = Memᴰ.head refl

open_entry_unbounded_example : allows (some careless) read (mrn_to_string queue) ≡ true
open_entry_unbounded_example =
    open_entry_unbounded careless read (read ++ b'=' ∷ []) queue read_named read-IsTrimmed
      read-Lacks (inr refl) careless_holds queue-IsResource
