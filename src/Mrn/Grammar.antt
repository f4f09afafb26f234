-- ===== src/Mrn/Grammar.antt =====
-- The grammar of mrn/mrn.go as predicates that do not mention its parsers: what a concrete
-- resource and a grant pattern look like, and which resources a pattern covers.
use maintainerd_sdk.Prelude.{ℕ, ◌≤◌, ◌≡◌, ◌≢◌, ◌⊎◌, true, List, [], ◌∷◌, ◌++◌, some, All}
use maintainerd_sdk.Text.{Bytes, Unicode}
use maintainerd_sdk.Text.Laws.{Lacks}
use maintainerd_sdk.Text.Utf8.{runes, is_print}
use maintainerd_sdk.Mrn.{Mrn, Pattern, star}

-- A lowercase letter, a digit or a hyphen.
abbrev pub IsSegmentByte : ℕ → Type 0
IsSegmentByte c = (b'a' ≤ c) × (c ≤ b'z') ⊎ ((b'0' ≤ c) × (c ≤ b'9') ⊎ (c ≡ b'-'))

abbrev pub IsSegment : Bytes → Type 0
IsSegment = All IsSegmentByte

-- A name segment or a wildcard.
abbrev pub IsSegmentPattern : Bytes → Type 0
IsSegmentPattern s = (s ≡ star) ⊎ IsSegment s

-- A pattern segment covers a segment if it is the wildcard or the same text.
abbrev pub SegmentCovers : Bytes → Bytes → Type 0
SegmentCovers p v = (p ≡ star) ⊎ (p ≡ v)

-- A pattern path covers itself, and `literal*` covers every path that begins with the literal.
abbrev pub PathCovers : Bytes → Bytes → Type 0
PathCovers p v = (p ≡ v) ⊎ ((lit : Bytes) × (rest : Bytes) × (p ≡ lit ++ star) × (v ≡ lit ++ rest))

pub record Covers (p : Pattern) (m : Mrn) : Type 0 where
  pub service : SegmentCovers p.service m.service
  pub tenant : SegmentCovers p.tenant m.tenant
  pub project : SegmentCovers p.project m.project
  pub path : PathCovers p.resource_path m.resource_path

module _ ⦃u : Unicode⦄ where
  abbrev pub IsPrintable : Bytes → Type 0
  IsPrintable s = (rs : List ℕ) × (runes s ≡ some rs) × All (λ r. is_print r ≡ true) rs

  pub record IsPath (path : Bytes) : Type 0 where
    pub not_empty : path ≢ []
    pub no_star : Lacks b'*' path
    pub no_slash : (rest : Bytes) → path ≢ b'/' ∷ rest
    pub printable : IsPrintable path

  abbrev pub IsPathPattern : Bytes → Type 0
  IsPathPattern path =
      (path ≡ star) ⊎ (IsPath path ⊎ ((lit : Bytes) × (path ≡ lit ++ star) × IsPath lit))

  pub record IsResource (m : Mrn) : Type 0 where
    pub has_service : m.service ≢ []
    pub service : IsSegment m.service
    pub tenant : IsSegment m.tenant
    pub project : IsSegment m.project
    pub path : IsPath m.resource_path

  pub record IsPattern (p : Pattern) : Type 0 where
    pub has_service : p.service ≢ []
    pub service : IsSegmentPattern p.service
    pub tenant : IsSegmentPattern p.tenant
    pub project : IsSegmentPattern p.project
    pub path : IsPathPattern p.resource_path
