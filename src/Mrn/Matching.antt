-- ===== src/Mrn/Matching.antt =====
-- The matcher decides the relation of the grammar.
use maintainerd_sdk.Prelude.{
  ◌-◌, ◌≡◌, refl, ◌↔◌, ◌⊎◌, inl, inr, Bool, true, false, [], ◌++◌, arith, ok, Result-cases, length,
  take, Bool-cases, length-append, take-append_length,
}
use mathlib.Core.List.{append_cancel_right}
use maintainerd_sdk.Text.{Bytes, ◌==◌, has_suffix, Unicode}
use maintainerd_sdk.Text.Laws.{
  eq_iff, has_prefix_iff, has_prefix-append, has_suffix_iff, has_suffix-append,
}
use maintainerd_sdk.Mrn.{
  Mrn, Pattern, star, segment_matches, path_matches, matches, parse, parse_pattern, match_pattern,
}
use maintainerd_sdk.Mrn.Grammar.{SegmentCovers, PathCovers, Covers}

segment_matches_iff : (p v : Bytes) → (segment_matches p v ≡ true) ↔ SegmentCovers p v
unfolding segment_matches
segment_matches_iff p v = ground (arith, eq_iff p star, eq_iff p v)

-- What `pattern[:len(pattern)-1]` is for a pattern that ends in the wildcard.
but_last : (lit : Bytes) → take (length (lit ++ star) - 1) (lit ++ star) ≡ lit
but_last lit =
    let one : length (lit ++ star) - 1 ≡ length lit = omega (arith, length-append lit star) in
    rw one (take-append_length lit star)

path_matches-append :
    (lit v : Bytes) → path_matches (lit ++ star) v ≡ true → (rest : Bytes) × (v ≡ lit ++ rest)
unfolding path_matches
path_matches-append lit v h = elim (Bool-cases ((lit ++ star) == star)) [
  | inl bare ↦
      let none_left : lit ≡ [] =
        append_cancel_right lit [] star ((eq_iff (lit ++ star) star).0 bare) in
      (v, rw none_left refl)
  | inr longer ↦ (has_prefix_iff v lit).0 (ground (arith, has_suffix-append lit star, but_last lit))
]

path_covers-append : (lit rest : Bytes) → path_matches (lit ++ star) (lit ++ rest) ≡ true
unfolding path_matches
path_covers-append lit rest =
    ground (arith, has_suffix-append lit star, but_last lit, has_prefix-append lit rest)

path_matches_refl : (p : Bytes) → path_matches p p ≡ true
path_matches_refl p = elim (Bool-cases (has_suffix p star)) [
  | inl ends ↦ let (lit, e) = (has_suffix_iff p star).0 ends in rw e (path_covers-append lit star)
  | inr plain ↦ unfold path_matches in ground (arith, eq_iff p p)
]

plain_cases :
    (p v : Bytes) → path_matches p v ≡ true → has_suffix p star ≡ false → (p ≡ star) ⊎ (p ≡ v)
unfolding path_matches
plain_cases p v h plain = ground (arith, eq_iff p star, eq_iff p v)

path_matches_plain :
    (p v : Bytes) → path_matches p v ≡ true → has_suffix p star ≡ false → PathCovers p v
path_matches_plain p v h plain = elim (plain_cases p v h plain) [
  | inl bare ↦ inr ([], v, bare, refl)
  | inr same ↦ inl same
]

path_matches_sound : (p v : Bytes) → path_matches p v ≡ true → PathCovers p v
path_matches_sound p v h = elim (Bool-cases (has_suffix p star)) [
  | inl ends ↦
      let (lit, e) = (has_suffix_iff p star).0 ends in
      let (rest, f) = path_matches-append lit v (rw e at h) in inr (lit, rest, e, f)
  | inr plain ↦ path_matches_plain p v h plain
]

path_matches_complete : (p v : Bytes) → PathCovers p v → path_matches p v ≡ true
path_matches_complete p v (inl e) = rw (← e) (path_matches_refl p)
path_matches_complete p v (inr (lit, rest, e, f)) = rw (e, f) (path_covers-append lit rest)

path_matches_iff : (p v : Bytes) → (path_matches p v ≡ true) ↔ PathCovers p v
path_matches_iff p v = (path_matches_sound p v, path_matches_complete p v)

matches_tests :
    (p : Pattern) (m : Mrn)
    → (matches p m ≡ true) ↔ (
        (segment_matches p.service m.service ≡ true)
        × (segment_matches p.tenant m.tenant ≡ true)
        × (segment_matches p.project m.project ≡ true)
        × (path_matches p.resource_path m.resource_path ≡ true))
unfolding matches
matches_tests p m = ground arith

-- `Matches` holds exactly if every segment of the pattern covers the segment of the resource in the
-- same place, and the pattern's path covers its path: a wildcard never spans a colon, and an empty
-- segment covers only an empty one.
pub matches_iff : (p : Pattern) (m : Mrn) → (matches p m ≡ true) ↔ Covers p m
matches_iff p m = (
  λ h.
      let (service, tenant, project, path) = (matches_tests p m).0 h in
      record {
        service = (segment_matches_iff p.service m.service).0 service;
        tenant = (segment_matches_iff p.tenant m.tenant).0 tenant;
        project = (segment_matches_iff p.project m.project).0 project;
        path = (path_matches_iff p.resource_path m.resource_path).0 path;
      },
  λ c. (matches_tests p m).1 (
    (segment_matches_iff p.service m.service).1 c.service,
    (segment_matches_iff p.tenant m.tenant).1 c.tenant,
    (segment_matches_iff p.project m.project).1 c.project,
    (path_matches_iff p.resource_path m.resource_path).1 c.path,
  ),
)

module _ ⦃u : Unicode⦄ where
  -- `MatchPattern` answers exactly if both sides are valid for their roles, and then as `Matches`.
  pub match_pattern_iff :
      (pattern resource : Bytes) (answer : Bool)
      → (match_pattern pattern resource ≡ ok answer) ↔ (
          (p : Pattern) × (m : Mrn) × (parse_pattern pattern ≡ ok p)
          × (parse resource ≡ ok m)
          × (matches p m ≡ answer))
  unfolding match_pattern
  match_pattern_iff pattern resource answer = (
    λ h. elim (Result-cases (parse_pattern pattern)) [
      | inl (e, failed) ↦ absurd (ground arith)
      | inr (p, found) ↦ elim (Result-cases (parse resource)) [
        | inl (e, failed) ↦ absurd (ground arith)
        | inr (m, target) ↦ (p, m, found, target, ground arith)
      ]
    ],
    λ (p, m, found, target, same). ground arith,
  )
