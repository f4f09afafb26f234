-- ===== src/Mrn/ValidPattern.antt =====
-- The checks on a pattern's parts accept exactly what the grammar describes.
use maintainerd_sdk.Prelude.{◌≡◌, refl, ap, ◌∙◌, ◌≢◌, ◌↔◌, ◌⊎◌, true, [], ◌++◌, arith, ok, inl, inr}
use maintainerd_sdk.Text.{Bytes, ◌==◌, has_suffix, trim_suffix, contains_rune, count_byte, Unicode}
use maintainerd_sdk.Text.Laws.{
  Lacks, eq_iff, has_suffix_iff, has_suffix-append, trim_suffix-append, contains_rune_iff,
  count_byte-append, count_byte-eq-zero_iff, contains_rune-append,
}
use maintainerd_sdk.Mrn.{
  Pattern, star, valid_segment, valid_resource_path, valid_path_pattern, check_pattern,
}
use maintainerd_sdk.Mrn.Grammar.{IsSegmentPattern, IsPath, IsPathPattern, IsPattern}
use maintainerd_sdk.Mrn.Valid.{valid_segment_iff, valid_resource_path_iff}

pub count_star : count_byte star b'*' ≡ 1
unfolding count_byte
count_star = refl

pub star_in_append : (lit : Bytes) → contains_rune (lit ++ star) b'*' ≡ true
star_in_append lit = contains_rune-append lit star b'*' (unfold contains_rune in refl)

pub one_star : (lit : Bytes) → Lacks b'*' lit → count_byte (lit ++ star) b'*' ≡ 1
one_star lit h =
    omega
      (arith, count_byte-append lit star b'*', (count_byte-eq-zero_iff lit b'*').1 h, count_star)

module _ ⦃u : Unicode⦄ where
  pub IsSegmentPattern-iff :
      (s : Bytes) → (((s == star) ≡ true) ⊎ (valid_segment s ≡ true)) ↔ IsSegmentPattern s
  IsSegmentPattern-iff s = ground (arith, eq_iff s star, valid_segment_iff s)

  check_pattern_guards :
      (p p' : Pattern)
      → (check_pattern p ≡ ok p') ↔ (
          (p ≡ p')
          × (p.service ≢ [])
          × (((p.service == star) ≡ true) ⊎ (valid_segment p.service ≡ true))
          × (((p.tenant == star) ≡ true) ⊎ (valid_segment p.tenant ≡ true))
          × (((p.project == star) ≡ true) ⊎ (valid_segment p.project ≡ true))
          × (valid_path_pattern p.resource_path ≡ ok tt))
  unfolding check_pattern
  check_pattern_guards p p' = ground (arith, eq_iff p.service [])

  -- The trailing wildcard is taken off before the literal part is checked.
  path_pattern-append : (lit : Bytes) → IsPath lit → valid_path_pattern (lit ++ star) ≡ ok tt
  unfolding valid_path_pattern
  path_pattern-append lit p = ground (
    arith,
    eq_iff (lit ++ star) star,
    star_in_append lit,
    one_star lit p.no_star,
    has_suffix-append lit star,
    trim_suffix-append lit star,
    (valid_resource_path_iff lit).1 p,
  )

  path_pattern_literal : (path : Bytes) → IsPath path → valid_path_pattern path ≡ ok tt
  unfolding valid_path_pattern
  path_pattern_literal path p = ground (
    arith,
    eq_iff path star,
    (contains_rune_iff path b'*').1 p.no_star,
    (valid_resource_path_iff path).1 p,
  )

  path_pattern_cases :
      (path : Bytes)
      → valid_path_pattern path ≡ ok tt
      → (path ≡ star)
        ⊎ ((valid_resource_path path ≡ ok tt)
            ⊎ ((has_suffix path star ≡ true)
                × (valid_resource_path (trim_suffix path star) ≡ ok tt)))
  unfolding valid_path_pattern
  path_pattern_cases path h = ground (arith, eq_iff path star)

  IsPathPattern-sound : (path : Bytes) → valid_path_pattern path ≡ ok tt → IsPathPattern path
  IsPathPattern-sound path h = elim (path_pattern_cases path h) [
    | inl bare ↦ inl bare
    | inr (inl literal) ↦ inr (inl ((valid_resource_path_iff path).0 literal))
    | inr (inr (ends, checked)) ↦
        let (lit, e) = (has_suffix_iff path star).0 ends in
        let same : trim_suffix path star ≡ lit =
          ap (λ t. trim_suffix t star) e ∙ trim_suffix-append lit star in
        inr (inr (lit, e, (valid_resource_path_iff lit).0 (rw same at checked)))
  ]

  path_pattern_complete : (path : Bytes) → IsPathPattern path → valid_path_pattern path ≡ ok tt
  path_pattern_complete path (inl e) = rw e (unfold valid_path_pattern ◌==◌ in refl)
  path_pattern_complete path (inr (inl p)) = path_pattern_literal path p
  path_pattern_complete path (inr (inr (lit, e, p))) = rw e (path_pattern-append lit p)

  -- `ParsePattern` keeps the parts, and accepts them exactly if they form a pattern.
  pub check_pattern_iff : (p p' : Pattern) → (check_pattern p ≡ ok p') ↔ ((p ≡ p') × IsPattern p)
  check_pattern_iff p p' = (
    λ h.
        let (same, filled, service, tenant, project, path) = (check_pattern_guards p p').0 h in
        (
          same,
          record {
            has_service = filled;
            service = (IsSegmentPattern-iff p.service).0 service;
            tenant = (IsSegmentPattern-iff p.tenant).0 tenant;
            project = (IsSegmentPattern-iff p.project).0 project;
            path = IsPathPattern-sound p.resource_path path;
          },
        ),
    λ (same, r). (check_pattern_guards p p').1 (
      same,
      r.has_service,
      (IsSegmentPattern-iff p.service).1 r.service,
      (IsSegmentPattern-iff p.tenant).1 r.tenant,
      (IsSegmentPattern-iff p.project).1 r.project,
      path_pattern_complete p.resource_path r.path,
    ),
  )
