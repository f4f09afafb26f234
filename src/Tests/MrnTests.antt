-- ===== src/Tests/MrnTests.antt =====
-- The cases of mrn/mrn_test.go.
use maintainerd_sdk.Prelude.{◌≡◌, refl, Bool, true, false, Result, ok, err}
use maintainerd_sdk.Text.{Bytes, codes}
use maintainerd_sdk.Mrn.{
  Mrn, MrnError, no_prefix, part_count, service_required, bad_tenant, bad_path, path_wildcard,
  path_wildcard_placement, parse, match_pattern,
}
use maintainerd_sdk.Tests.Env.{ascii_only, run_mrn}

abbrev billing : Mrn
billing = record {
  service = codes "secret";
  tenant = codes "acme";
  project = codes "billing";
  resource_path = codes "secret/prod/url/DSN:5432";
}

parse_colon : parse (codes "mrn:secret:acme:billing:secret/prod/url/DSN:5432") ≡ ok billing
unfolding run_mrn
parse_colon = refl

parse_rejects :
    (parse (codes "secret:acme:billing:x") ≡ err no_prefix)
    × (parse (codes "mrn:secret:acme:billing") ≡ err part_count)
    × (parse (codes "mrn::acme:billing:secret/x") ≡ err service_required)
    × (parse (codes "mrn:secret:ACME:billing:secret/x") ≡ err bad_tenant)
    × (parse (codes "mrn:secret:acme:billing:secret/*") ≡ err (bad_path path_wildcard))
unfolding run_mrn
parse_rejects = (refl, refl, refl, refl, refl)

abbrev run : Bytes → Bytes → Result MrnError Bool
run = match_pattern

match_tests :
    (run (codes "mrn:secret:acme:*:*") (codes "mrn:secret:acmecorp:billing:x") ≡ ok false)
    × (run (codes "mrn:secret:acme::project") (codes "mrn:secret:acme:billing:project") ≡ ok false)
    × (run (codes "mrn:secret:acme:*:project") (codes "mrn:secret:acme::project") ≡ ok true)
    × (run (codes "mrn:secret:a:b:s/staging/*") (codes "mrn:secret:a:b:s/staging/db") ≡ ok true)
    × (run (codes "mrn:secret:a:b:s/*/P") (codes "mrn:secret:a:b:s/x/P")
        ≡ err (bad_path path_wildcard_placement))
unfolding run_mrn
match_tests = (refl, refl, refl, refl, refl)
