-- ===== src/Mrn/Isolation.antt =====
-- A pattern as a boundary between tenants, and a resource read as a pattern.
use mathlib.Core.Path.{subst}
use maintainerd_sdk.Prelude.{◌≡◌, refl, ◌≢◌, ◌↔◌, ◌⊎◌, inl, inr, true, arith, ok, All-right}
use maintainerd_sdk.Text.{Bytes, Unicode}
use maintainerd_sdk.Text.Laws.{Lacks}
use maintainerd_sdk.Mrn.{
  Mrn, Pattern, star, mrn_to_string, pattern_to_string, matches, parse, parse_pattern,
  match_pattern,
}
use maintainerd_sdk.Mrn.Grammar.{
  IsSegment, IsPath, SegmentCovers, PathCovers, Covers, IsResource, IsPattern,
}
use maintainerd_sdk.Mrn.Parsing.{parse_iff, parse_pattern_iff}
use maintainerd_sdk.Mrn.Matching.{matches_iff, match_pattern_iff}

-- The pattern with the same parts.
abbrev pub as_pattern : Mrn → Pattern
as_pattern m = record {
  service = m.service;
  tenant = m.tenant;
  project = m.project;
  resource_path = m.resource_path;
}

star_not-IsSegment : ¬ IsSegment star
star_not-IsSegment h = ground arith

segment_not_star : (s : Bytes) → IsSegment s → s ≢ star
segment_not_star s h e = star_not-IsSegment (subst IsSegment e h)

exact_segment : (s v : Bytes) → IsSegment s → SegmentCovers s v → s ≡ v
exact_segment s v h (inl e) = absurd (segment_not_star s h e)
exact_segment s v h (inr e) = e

module _ ⦃u : Unicode⦄ where
  exact_path : (s v : Bytes) → IsPath s → PathCovers s v → s ≡ v
  exact_path s v h (inl e) = e
  exact_path s v h (inr (lit, rest, e, f)) =
      absurd ((All-right (λ d. d ≢ b'*') lit star (subst (Lacks b'*') e h.no_star)).0 refl)

  as_pattern-IsPattern : (m : Mrn) → IsResource m → IsPattern (as_pattern m)
  as_pattern-IsPattern m r = record {
    has_service = r.has_service;
    service = inr r.service;
    tenant = inr r.tenant;
    project = inr r.project;
    path = inr (inl r.path);
  }

  as_pattern-Covers_iff : (m n : Mrn) → IsResource m → Covers (as_pattern m) n ↔ (m ≡ n)
  as_pattern-Covers_iff m n r = (
    λ c i. record {
      service = exact_segment m.service n.service r.service c.service i;
      tenant = exact_segment m.tenant n.tenant r.tenant c.tenant i;
      project = exact_segment m.project n.project r.project c.project i;
      resource_path = exact_path m.resource_path n.resource_path r.path c.path i;
    },
    λ e.
        subst (λ n. Covers (as_pattern m) n) e
          (record { service = inr refl; tenant = inr refl; project = inr refl; path = inl refl }),
  )

  -- A text that `Parse` accepts is also a pattern, one that matches its own resource and no other:
  -- no text that names a resource can grant more than that resource.
  pub resource_as_pattern :
      (s : Bytes) (m : Mrn)
      → parse s ≡ ok m
      → (parse_pattern s ≡ ok (as_pattern m))
        × ((n : Mrn) → (matches (as_pattern m) n ≡ true) ↔ (m ≡ n))
  unfolding mrn_to_string pattern_to_string
  resource_as_pattern s m h =
      let (spelled, good) = (parse_iff s m).0 h in
      (
        (parse_pattern_iff s (as_pattern m)).1 (spelled, as_pattern-IsPattern m good),
        λ n.
            let (to, from) = matches_iff (as_pattern m) n in
            let (cover, covered) = as_pattern-Covers_iff m n good in
            (λ t. cover (to t), λ e. from (covered e)),
      )

  -- Whatever text a pattern matches is one that `Parse` reads as a resource of the grammar, and in
  -- each of the three name segments the pattern, as `ParsePattern` reads it, has the wildcard or
  -- the very text that this resource has there: a pattern that names one tenant never matches
  -- another's resource, however alike their names are.
  pub segment_isolation :
      (pattern resource : Bytes)
      → match_pattern pattern resource ≡ ok true
      → (p : Pattern) × (m : Mrn) × (parse_pattern pattern ≡ ok p)
        × (parse resource ≡ ok m)
        × IsResource m
        × ((p.service ≡ star) ⊎ (p.service ≡ m.service))
        × ((p.tenant ≡ star) ⊎ (p.tenant ≡ m.tenant))
        × ((p.project ≡ star) ⊎ (p.project ≡ m.project))
  segment_isolation pattern resource h =
      let (p, m, read, target, hit) = (match_pattern_iff pattern resource true).0 h in
      let cover = (matches_iff p m).0 hit in
      (
        p,
        m,
        read,
        target,
        ((parse_iff resource m).0 target).1,
        cover.service,
        cover.tenant,
        cover.project,
      )
