-- ===== src/Mrn/Parsing.antt =====
-- What `Parse` and `ParsePattern` accept, and that rendering gives the text back.
use maintainerd_sdk.Prelude.{◌≡◌, refl, ap, ◌∙◌, ◌↔◌, arith, ok, Result-cases, inl, inr}
use mathlib.Core.Path.{subst}
use maintainerd_sdk.Text.{Bytes, Unicode}
use maintainerd_sdk.Mrn.{
  Mrn, Pattern, mrn_to_string, pattern_to_string, split, parse, check_resource, parse_pattern,
  check_pattern,
}
use maintainerd_sdk.Mrn.Grammar.{IsResource, IsPattern}
use maintainerd_sdk.Mrn.Split.{split-render, split_sound}
use maintainerd_sdk.Mrn.Valid.{Lacks-of_IsSegment, Lacks-of_IsSegmentPattern, check_resource_iff}
use maintainerd_sdk.Mrn.ValidPattern.{check_pattern_iff}

module _ ⦃u : Unicode⦄ where
  parse_sound : (s : Bytes) (m : Mrn) → parse s ≡ ok m → (s ≡ mrn_to_string m) × IsResource m
  unfolding parse mrn_to_string
  parse_sound s m h = elim (Result-cases (split s)) [
    | inl (e, failed) ↦ absurd (ground arith)
    | inr (parts, found) ↦
        let (a, b, c, d, spelled, same) = split_sound s parts found in
        let made : Mrn = record { service = a; tenant = b; project = c; resource_path = d } in
        let checked : check_resource made ≡ ok m = ground arith in
        let (kept, good) = (check_resource_iff made m).0 checked in
        subst (λ r. (s ≡ mrn_to_string r) × IsResource r) kept (spelled, good)
  ]

  parse_complete : (m : Mrn) → IsResource m → parse (mrn_to_string m) ≡ ok m
  unfolding parse mrn_to_string
  parse_complete m r =
      rw
        (split-render m.service m.tenant m.project m.resource_path
          (Lacks-of_IsSegment m.service r.service) (Lacks-of_IsSegment m.tenant r.tenant)
          (Lacks-of_IsSegment m.project r.project))
        ((check_resource_iff m m).1 (refl, r))

  pattern_sound :
      (s : Bytes) (p : Pattern) → parse_pattern s ≡ ok p → (s ≡ pattern_to_string p) × IsPattern p
  unfolding parse_pattern pattern_to_string
  pattern_sound s p h = elim (Result-cases (split s)) [
    | inl (e, failed) ↦ absurd (ground arith)
    | inr (parts, found) ↦
        let (a, b, c, d, spelled, same) = split_sound s parts found in
        let made : Pattern = record { service = a; tenant = b; project = c; resource_path = d } in
        let checked : check_pattern made ≡ ok p = ground arith in
        let (kept, good) = (check_pattern_iff made p).0 checked in
        subst (λ r. (s ≡ pattern_to_string r) × IsPattern r) kept (spelled, good)
  ]

  pattern_complete : (p : Pattern) → IsPattern p → parse_pattern (pattern_to_string p) ≡ ok p
  unfolding parse_pattern pattern_to_string
  pattern_complete p r =
      rw
        (split-render p.service p.tenant p.project p.resource_path
          (Lacks-of_IsSegmentPattern p.service r.service)
          (Lacks-of_IsSegmentPattern p.tenant r.tenant)
          (Lacks-of_IsSegmentPattern p.project r.project))
        ((check_pattern_iff p p).1 (refl, r))

  -- `Parse` returns `m` exactly for the one text that renders `m`, and only if `m` is a resource of
  -- the grammar: four parts of the right alphabet, a path that is not empty, is printable UTF-8,
  -- holds no wildcard and does not start with a slash.
  pub parse_iff : (s : Bytes) (m : Mrn) → (parse s ≡ ok m) ↔ ((s ≡ mrn_to_string m) × IsResource m)
  parse_iff s m = (parse_sound s m, λ (e, r). ap parse e ∙ parse_complete m r)

  -- `ParsePattern` returns `p` exactly for the one text that renders `p`, and only if `p` is a
  -- pattern of the grammar: a wildcard stands alone in a segment, and only at the end of a path.
  pub parse_pattern_iff :
      (s : Bytes) (p : Pattern)
      → (parse_pattern s ≡ ok p) ↔ ((s ≡ pattern_to_string p) × IsPattern p)
  parse_pattern_iff s p = (pattern_sound s p, λ (e, r). ap parse_pattern e ∙ pattern_complete p r)
