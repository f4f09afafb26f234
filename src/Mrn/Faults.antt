-- ===== src/Mrn/Faults.antt =====
-- Why a text is no resource name or no pattern: the first reason that holds, with no reference to the
-- parsers.
use maintainerd_sdk.Prelude.{ℕ, ◌≡◌, ◌≢◌, ◌⊎◌, true, List, [], ◌∷◌, ◌++◌, none, some, All}
use maintainerd_sdk.Text.{Bytes, Unicode}
use maintainerd_sdk.Text.Laws.{Lacks}
use maintainerd_sdk.Text.Utf8.{runes, is_print}
use maintainerd_sdk.Mrn.{
  star, prefix, render, PathError, path_required, path_wildcard, path_leading_slash, path_not_utf8,
  path_unprintable, path_wildcard_placement, MrnError, no_prefix, part_count, service_required,
  bad_service, bad_tenant, bad_project, bad_path,
}

abbrev pub StartsWithSlash : Bytes → Type 0
StartsWithSlash path = (rest : Bytes) × (path ≡ b'/' ∷ rest)

-- A literal with a wildcard behind it.
abbrev pub IsGlob : Bytes → Bytes → Type 0
IsGlob lit path = (path ≡ lit ++ star) × Lacks b'*' lit

module _ ⦃u : Unicode⦄ where
  -- Empty, or else with a wildcard, or else with a slash in front, or else no UTF-8, or else with a
  -- character that is not printable.
  abbrev pub PathFault : Bytes → PathError → Type 0
  PathFault path path_required = path ≡ []
  PathFault path path_wildcard = (path ≢ []) × (¬ Lacks b'*' path)
  PathFault path path_leading_slash = Lacks b'*' path × StartsWithSlash path
  PathFault path path_not_utf8 =
      (path ≢ []) × Lacks b'*' path × (¬ StartsWithSlash path) × (runes path ≡ none)
  PathFault path path_unprintable =
      (path ≢ [])
      × Lacks b'*' path
      × (¬ StartsWithSlash path)
      × ((rs : List ℕ) × (runes path ≡ some rs) × (¬ All (λ r. is_print r ≡ true) rs))
  PathFault path path_wildcard_placement = ⊥

  -- A wildcard that is not the last character and the only one; or else a fault of the path, or of
  -- the literal before the wildcard.
  abbrev pub PathPatternFault : Bytes → PathError → Type 0
  PathPatternFault path path_wildcard_placement =
      (¬ Lacks b'*' path) × (¬ ((lit : Bytes) × IsGlob lit path))
  PathPatternFault path e =
      (path ≢ star)
      × ((Lacks b'*' path × PathFault path e) ⊎ ((lit : Bytes) × IsGlob lit path × PathFault lit e))

-- The text is put together from four parts, of which the first three hold no colon.
abbrev pub IsCut : Bytes → Bytes → Bytes → Bytes → Bytes → Type 0
IsCut s a b c d = (s ≡ render a b c d) × Lacks b':' a × Lacks b':' b × Lacks b':' c

abbrev pub HasScheme : Bytes → Type 0
HasScheme s = (rest : Bytes) × (s ≡ prefix ++ rest)

abbrev pub IsCuttable : Bytes → Type 0
IsCuttable s = (a : Bytes) × (b : Bytes) × (c : Bytes) × (d : Bytes) × IsCut s a b c d

module _ (IsPart : Bytes → Type 0) (IsFault : Bytes → PathError → Type 0) where
  -- The parts from left to right: the first that is wrong.
  abbrev pub PartFault : Bytes → Bytes → Bytes → Bytes → MrnError → Type 0
  PartFault a b c d service_required = a ≡ []
  PartFault a b c d bad_service = (a ≢ []) × (¬ IsPart a)
  PartFault a b c d bad_tenant = (a ≢ []) × IsPart a × (¬ IsPart b)
  PartFault a b c d bad_project = (a ≢ []) × IsPart a × IsPart b × (¬ IsPart c)
  PartFault a b c d (bad_path e) = (a ≢ []) × IsPart a × IsPart b × IsPart c × IsFault d e
  PartFault a b c d no_prefix = ⊥
  PartFault a b c d part_count = ⊥

  abbrev pub Fault : Bytes → MrnError → Type 0
  Fault s no_prefix = ¬ HasScheme s
  Fault s part_count = HasScheme s × (¬ IsCuttable s)
  Fault s e =
      (a : Bytes) × (b : Bytes) × (c : Bytes) × (d : Bytes) × IsCut s a b c d × PartFault a b c d e
