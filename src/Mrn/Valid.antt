-- ===== src/Mrn/Valid.antt =====
-- The checks on the parts accept exactly what the grammar describes.
use maintainerd_sdk.Prelude.{
  ℕ, ◌≡◌, refl, sym, ◌∙◌, ◌≢◌, ◌↔◌, true, false, List, [], ◌∷◌, some, arith, ok, Bool-cases, inl,
  inr, All, All-imp,
}
use maintainerd_sdk.Text.{Bytes, codes, has_prefix, contains_rune, Unicode}
use maintainerd_sdk.Text.Laws.{Lacks, eq_iff, contains_rune_iff}
use maintainerd_sdk.Text.Utf8.{runes, is_print, all_print, valid_string, print_string}
use maintainerd_sdk.Mrn.{Mrn, valid_segment, valid_resource_path, check_resource}
use maintainerd_sdk.Mrn.Grammar.{
  IsSegmentByte, IsSegment, IsSegmentPattern, IsPrintable, IsPath, IsResource,
}

pub valid_segment_iff : (s : Bytes) → (valid_segment s ≡ true) ↔ IsSegment s
unfolding valid_segment
valid_segment_iff [] = (λ h. tt, λ h. refl)
valid_segment_iff (c ∷ s) = ground (arith, valid_segment_iff s)

pub Lacks-of_IsSegment : (s : Bytes) → IsSegment s → Lacks b':' s
Lacks-of_IsSegment s h = All-imp IsSegmentByte (λ d. d ≢ b':') (λ x p. ground arith) s h

pub Lacks-of_IsSegmentPattern : (s : Bytes) → IsSegmentPattern s → Lacks b':' s
Lacks-of_IsSegmentPattern s (inl e) = rw e (ground arith)
Lacks-of_IsSegmentPattern s (inr h) = Lacks-of_IsSegment s h

slash_iff : (s : Bytes) → (has_prefix s (codes "/") ≡ false) ↔ ((rest : Bytes) → s ≢ b'/' ∷ rest)
unfolding has_prefix
slash_iff [] = (λ h r e. cc, λ h. refl)
slash_iff (c ∷ s) = (λ h r e. ground arith, λ h. ground (arith, h s))

module _ ⦃u : Unicode⦄ where
  pub all_print_iff : (rs : List ℕ) → (all_print rs ≡ true) ↔ All (λ r. is_print r ≡ true) rs
  unfolding all_print
  all_print_iff [] = (λ h. tt, λ h. refl)
  all_print_iff (r ∷ rs) = elim (Bool-cases (is_print r)) [
    | inl p ↦ rw p (λ h. (refl, (all_print_iff rs).0 h), λ h. (all_print_iff rs).1 h.1)
    | inr q ↦ rw q (λ h. cc, λ h. cc)
  ]

  pub runes_valid :
      (s : Bytes) (rs : List ℕ)
      → runes s ≡ some rs
      → (valid_string s ≡ true) × (print_string s ≡ all_print rs)
  unfolding valid_string print_string
  runes_valid s rs e = ground arith

  runes_of_valid : (s : Bytes) → valid_string s ≡ true → (rs : List ℕ) × (runes s ≡ some rs)
  unfolding valid_string
  runes_of_valid s h = ground arith

  IsPrintable-iff :
      (s : Bytes) → ((valid_string s ≡ true) × (print_string s ≡ true)) ↔ IsPrintable s
  IsPrintable-iff s = (
    λ (v, p).
        let (rs, e) = runes_of_valid s v in
        (rs, e, (all_print_iff rs).0 (sym (runes_valid s rs e).1 ∙ p)),
    λ (rs, e, p). ((runes_valid s rs e).0, (runes_valid s rs e).1 ∙ (all_print_iff rs).1 p),
  )

  path_checks :
      (path : Bytes)
      → (valid_resource_path path ≡ ok tt) ↔ (
          (path ≢ [])
          × (contains_rune path b'*' ≡ false)
          × (has_prefix path (codes "/") ≡ false)
          × (valid_string path ≡ true)
          × (print_string path ≡ true))
  unfolding valid_resource_path
  path_checks path = ground (arith, eq_iff path [])

  -- `validResourcePath` accepts exactly the paths of the grammar.
  pub valid_resource_path_iff : (path : Bytes) → (valid_resource_path path ≡ ok tt) ↔ IsPath path
  valid_resource_path_iff path = (
    λ h.
        let (filled, starless, slashless, valid, prints) = (path_checks path).0 h in
        record {
          not_empty = filled;
          no_star = (contains_rune_iff path b'*').0 starless;
          no_slash = (slash_iff path).0 slashless;
          printable = (IsPrintable-iff path).0 (valid, prints);
        },
    λ p.
        let (valid, prints) = (IsPrintable-iff path).1 p.printable in
        (path_checks path).1 (
          p.not_empty,
          (contains_rune_iff path b'*').1 p.no_star,
          (slash_iff path).1 p.no_slash,
          valid,
          prints,
        ),
  )

  check_resource_guards :
      (m m' : Mrn)
      → (check_resource m ≡ ok m') ↔ (
          (m ≡ m')
          × (m.service ≢ [])
          × (valid_segment m.service ≡ true)
          × (valid_segment m.tenant ≡ true)
          × (valid_segment m.project ≡ true)
          × (valid_resource_path m.resource_path ≡ ok tt))
  unfolding check_resource
  check_resource_guards m m' = ground (arith, eq_iff m.service [])

  -- `Parse` keeps the parts as they are, and accepts them exactly if they form a resource.
  pub check_resource_iff : (m m' : Mrn) → (check_resource m ≡ ok m') ↔ ((m ≡ m') × IsResource m)
  check_resource_iff m m' = (
    λ h.
        let (same, filled, service, tenant, project, path) = (check_resource_guards m m').0 h in
        (
          same,
          record {
            has_service = filled;
            service = (valid_segment_iff m.service).0 service;
            tenant = (valid_segment_iff m.tenant).0 tenant;
            project = (valid_segment_iff m.project).0 project;
            path = (valid_resource_path_iff m.resource_path).0 path;
          },
        ),
    λ (same, r). (check_resource_guards m m').1 (
      same,
      r.has_service,
      (valid_segment_iff m.service).1 r.service,
      (valid_segment_iff m.tenant).1 r.tenant,
      (valid_segment_iff m.project).1 r.project,
      (valid_resource_path_iff m.resource_path).1 r.path,
    ),
  )
