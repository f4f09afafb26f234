-- ===== src/Tests/MrnWitnesses.antt =====
-- The theorems on resource names and grants, applied.
use maintainerd_sdk.Prelude.{◌≡◌, refl, ◌↔◌, ◌⊎◌, true, ok}
use maintainerd_sdk.Mrn.{
  Mrn, Pattern, star, mrn_to_string, pattern_to_string, matches, parse, parse_pattern,
  match_pattern,
}
use maintainerd_sdk.Mrn.Grammar.{Covers, IsResource, IsPattern}
use maintainerd_sdk.Mrn.Parsing.{parse_iff, parse_pattern_iff}
use maintainerd_sdk.Mrn.Matching.{matches_iff}
use maintainerd_sdk.Mrn.Isolation.{as_pattern, resource_as_pattern, segment_isolation}
use maintainerd_sdk.Prelude.{err}
use maintainerd_sdk.Text.{Bytes, codes}
use maintainerd_sdk.Mrn.{bad_tenant}
use maintainerd_sdk.Mrn.Grammar.{IsSegment, IsSegmentPattern}
use maintainerd_sdk.Mrn.Faults.{PathFault, PathPatternFault, Fault}
use maintainerd_sdk.Mrn.Errors.{parse-Fault_iff}
use maintainerd_sdk.Tests.Env.{ascii_only, run_mrn}
use maintainerd_sdk.Tests.Data.{billing, billing_text, acme, acme_text}

billing_parses : parse billing_text ≡ ok billing
unfolding run_mrn
billing_parses = refl

acme_parses : parse_pattern acme_text ≡ ok acme
unfolding run_mrn
acme_parses = refl

parse_iff_example : (billing_text ≡ mrn_to_string billing) × IsResource billing
parse_iff_example = (parse_iff billing_text billing).0 billing_parses

parse_pattern_iff_example : (acme_text ≡ pattern_to_string acme) × IsPattern acme
parse_pattern_iff_example = (parse_pattern_iff acme_text acme).0 acme_parses

matches_iff_example : Covers acme billing
unfolding run_mrn
matches_iff_example = (matches_iff acme billing).0 refl

resource_as_pattern_example :
    (parse_pattern billing_text ≡ ok (as_pattern billing))
    × ((n : Mrn) → (matches (as_pattern billing) n ≡ true) ↔ (billing ≡ n))
resource_as_pattern_example = resource_as_pattern billing_text billing billing_parses

acme_matches : match_pattern acme_text billing_text ≡ ok true
unfolding run_mrn
acme_matches = refl

segment_isolation_example :
    (p : Pattern) × (m : Mrn) × (parse_pattern acme_text ≡ ok p)
    × (parse billing_text ≡ ok m)
    × IsResource m
    × ((p.service ≡ star) ⊎ (p.service ≡ m.service))
    × ((p.tenant ≡ star) ⊎ (p.tenant ≡ m.tenant))
    × ((p.project ≡ star) ⊎ (p.project ≡ m.project))
segment_isolation_example = segment_isolation acme_text billing_text acme_matches

-- A tenant with a blank, and a wildcard in the middle of the path.
abbrev faulty_text : Bytes
faulty_text = codes "mrn:secret:ac me::secret/*/x"

faulty_refused : (parse faulty_text ≡ err bad_tenant) × (parse_pattern faulty_text ≡ err bad_tenant)
unfolding run_mrn
faulty_refused = (refl, refl)

parse-Fault_iff_example :
    Fault IsSegment PathFault faulty_text bad_tenant
    × Fault IsSegmentPattern PathPatternFault faulty_text bad_tenant
parse-Fault_iff_example =
    let (resource, pattern) = parse-Fault_iff faulty_text bad_tenant in
    (resource.0 faulty_refused.0, pattern.0 faulty_refused.1)
