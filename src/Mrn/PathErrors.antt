-- ===== src/Mrn/PathErrors.antt =====
-- The checks on paths refuse a path with the first fault that it has, and with nothing else.
use maintainerd_sdk.Prelude.{
  ℕ, ◌+◌, Bool, not, ◌||◌, ltb, ◌≡◌, sym, ap, ◌∙◌, ◌≢◌, ◌⊎◌, ◌↔◌, inl, inr, true, false, List, [],
  ◌++◌, none, some, arith, err, All, Bool-cases, Option-cases,
}
use mathlib.Core.Path.{subst}
use maintainerd_sdk.Text.{
  Bytes, codes, ◌==◌, has_prefix, has_suffix, trim_suffix, contains_rune, count_byte, Unicode,
}
use maintainerd_sdk.Text.Laws.{
  Lacks, eq_iff, has_prefix_iff, contains_rune_iff, has_suffix_iff, has_suffix-append,
  trim_suffix-append, count_byte-append, count_byte-eq-zero_iff,
}
use maintainerd_sdk.Text.Utf8.{runes, is_print, all_print, valid_string, print_string}
use maintainerd_sdk.Mrn.{
  star, PathError, path_required, path_wildcard, path_leading_slash, path_not_utf8,
  path_unprintable, path_wildcard_placement, valid_resource_path, valid_path_pattern,
}
use maintainerd_sdk.Mrn.Faults.{StartsWithSlash, IsGlob, PathFault, PathPatternFault}
use maintainerd_sdk.Mrn.Valid.{all_print_iff, runes_valid}
use maintainerd_sdk.Mrn.ValidPattern.{count_star, star_in_append, one_star}

starts_iff : (s : Bytes) → (has_prefix s (codes "/") ≡ true) ↔ StartsWithSlash s
starts_iff s = has_prefix_iff s (codes "/")

stars_iff : (s : Bytes) → (contains_rune s b'*' ≡ true) ↔ (¬ Lacks b'*' s)
stars_iff s = ground (arith, contains_rune_iff s b'*')

invalid_iff : (s : Bytes) → (valid_string s ≡ false) ↔ (runes s ≡ none)
unfolding valid_string
invalid_iff s = (λ h. ground arith, λ e. ground arith)

-- The two guards on a path with a wildcard.
abbrev misplaced : Bytes → Bool
misplaced path = ltb 1 (count_byte path b'*') || not (has_suffix path star)

misplaced_iff : (path : Bytes) → (misplaced path ≡ false) ↔ ((lit : Bytes) × IsGlob lit path)
misplaced_iff path = (
  λ h.
      let ends : has_suffix path star ≡ true = ground arith in
      let (lit, e) = (has_suffix_iff path star).0 ends in
      let total : count_byte path b'*' ≡ count_byte lit b'*' + count_byte star b'*' =
        ap (λ p. count_byte p b'*') e ∙ count_byte-append lit star b'*' in
      let none_left : count_byte lit b'*' ≡ 0 = ground (arith, count_star) in
      (lit, (e, (count_byte-eq-zero_iff lit b'*').0 none_left)),
  λ (lit, (e, lacks)). rw e (ground (arith, has_suffix-append lit star, one_star lit lacks)),
)

trim_glob : (lit path : Bytes) → path ≡ lit ++ star → trim_suffix path star ≡ lit
trim_glob lit path e = ap (λ t. trim_suffix t star) e ∙ trim_suffix-append lit star

module _ ⦃u : Unicode⦄ where
  -- Some character is not printable.
  Unprinted : Bytes → Type 0
  Unprinted s = (rs : List ℕ) × (runes s ≡ some rs) × (¬ All (λ r. is_print r ≡ true) rs)

  Unprinted-sound : (s : Bytes) → valid_string s ≡ true → print_string s ≡ false → Unprinted s
  unfolding Unprinted
  Unprinted-sound s v p = elim (Option-cases (runes s)) [
    | inl none_found ↦ absurd (ground (arith, (invalid_iff s).1 none_found))
    | inr (rs, e) ↦ (rs, e, λ all. ground (arith, runes_valid s rs e, (all_print_iff rs).1 all))
  ]

  Unprinted-complete :
      (s : Bytes) → Unprinted s → (valid_string s ≡ true) × (print_string s ≡ false)
  unfolding Unprinted
  Unprinted-complete s (rs, e, some_bad) =
      let (valid, same) = runes_valid s rs e in
      (
        valid,
        elim (Bool-cases (all_print rs)) [
          | inl prints ↦ absurd (some_bad ((all_print_iff rs).0 prints))
          | inr fails ↦ same ∙ fails
        ],
      )

  PathFault-sound :
      (path : Bytes) (e : PathError) → valid_resource_path path ≡ err e → PathFault path e
  unfolding valid_resource_path
  PathFault-sound path path_required h = ground (arith, eq_iff path [])
  PathFault-sound path path_wildcard h = ground (arith, eq_iff path [], stars_iff path)
  PathFault-sound path path_leading_slash h =
      ground (arith, contains_rune_iff path b'*', starts_iff path)
  PathFault-sound path path_not_utf8 h =
      ground (arith, eq_iff path [], contains_rune_iff path b'*', starts_iff path, invalid_iff path)
  PathFault-sound path path_unprintable h =
      let (filled, starless, slashless, valid, unprinted) : (path ≢ [])
          × Lacks b'*' path
          × (¬ StartsWithSlash path)
          × (valid_string path ≡ true)
          × (print_string path ≡ false) =
        ground (arith, eq_iff path [], contains_rune_iff path b'*', starts_iff path) in
      (filled, starless, slashless, unfold Unprinted in Unprinted-sound path valid unprinted)
  PathFault-sound path path_wildcard_placement h = absurd (ground arith)

  PathFault-complete :
      (path : Bytes) (e : PathError) → PathFault path e → valid_resource_path path ≡ err e
  unfolding valid_resource_path
  PathFault-complete path path_required h = ground (arith, eq_iff path [])
  PathFault-complete path path_wildcard h = ground (arith, eq_iff path [], stars_iff path)
  PathFault-complete path path_leading_slash h =
      let filled : path ≢ [] = λ e. ground arith in
      ground (arith, eq_iff path [], contains_rune_iff path b'*', starts_iff path)
  PathFault-complete path path_not_utf8 h =
      ground (arith, eq_iff path [], contains_rune_iff path b'*', starts_iff path, invalid_iff path)
  PathFault-complete path path_unprintable (filled, starless, slashless, bad) =
      let (valid, unprinted) = Unprinted-complete path (unfold Unprinted in bad) in
      ground (arith, eq_iff path [], contains_rune_iff path b'*', starts_iff path)
  PathFault-complete path path_wildcard_placement h = absurd h

  pub valid_resource_path_error :
      (path : Bytes) (e : PathError) → (valid_resource_path path ≡ err e) ↔ PathFault path e
  valid_resource_path_error path e = (PathFault-sound path e, PathFault-complete path e)

  -- A fault of a path, or of the literal before a wildcard.
  PartOfPattern : Bytes → PathError → Type 0
  PartOfPattern path e =
      (Lacks b'*' path × PathFault path e) ⊎ ((lit : Bytes) × IsGlob lit path × PathFault lit e)

  of_pattern :
      (path : Bytes) (e : PathError) → path ≢ star → PartOfPattern path e → PathPatternFault path e
  unfolding PartOfPattern
  of_pattern path path_wildcard_placement n (inl (lacks, h)) = absurd h
  of_pattern path path_wildcard_placement n (inr (lit, glob, h)) = absurd h
  of_pattern path e n h = (n, h)

  PathPatternFault-sound :
      (path : Bytes) (e : PathError) → valid_path_pattern path ≡ err e → PathPatternFault path e
  PathPatternFault-sound path e h = elim (Bool-cases (path == star)) [
    | inl bare ↦ absurd (unfold valid_path_pattern in ground arith)
    | inr more ↦
        let n : path ≢ star = ground (arith, eq_iff path star) in
        elim (Bool-cases (contains_rune path b'*')) [
          | inr plain ↦
              let inner : valid_resource_path path ≡ err e =
                unfold valid_path_pattern in ground arith in
              of_pattern path e n (
                unfold PartOfPattern in
                inl ((contains_rune_iff path b'*').0 plain, PathFault-sound path e inner))
          | inl starred ↦ elim (Bool-cases (misplaced path)) [
            | inl astray ↦
                let same : path_wildcard_placement ≡ e =
                  unfold valid_path_pattern in ground arith in
                subst (PathPatternFault path) same
                  ((stars_iff path).0 starred, λ glob. ground (arith, (misplaced_iff path).1 glob))
            | inr placed ↦
                let (lit, (e', lacks)) = (misplaced_iff path).0 placed in
                let inner : valid_resource_path lit ≡ err e =
                  ap valid_resource_path (sym (trim_glob lit path e'))
                  ∙ (unfold valid_path_pattern in ground arith) in
                of_pattern path e n
                  (unfold PartOfPattern in inr (lit, (e', lacks), PathFault-sound lit e inner))
          ]
        ]
  ]

  part_complete :
      (path : Bytes) (e : PathError)
      → path ≢ star
      → PartOfPattern path e
      → valid_path_pattern path ≡ err e
  unfolding PartOfPattern valid_path_pattern
  part_complete path e n (inl (lacks, h)) =
      ground (arith, eq_iff path star, contains_rune_iff path b'*', PathFault-complete path e h)
  part_complete path e n (inr (lit, (same, lacks), h)) =
      let placed = (misplaced_iff path).1 (lit, (same, lacks)) in
      let starred : contains_rune path b'*' ≡ true =
        ap (λ p. contains_rune p b'*') same ∙ star_in_append lit in
      let inner : valid_resource_path (trim_suffix path star) ≡ err e =
        ap valid_resource_path (trim_glob lit path same) ∙ PathFault-complete lit e h in
      ground (arith, eq_iff path star)

  PathPatternFault-complete :
      (path : Bytes) (e : PathError) → PathPatternFault path e → valid_path_pattern path ≡ err e
  PathPatternFault-complete path path_wildcard_placement (starred, astray) =
      let bare : path ≢ star = λ e. astray ([], (e, tt)) in
      elim (Bool-cases (misplaced path)) [
        | inl wrong ↦ unfold valid_path_pattern in ground (arith, eq_iff path star, stars_iff path)
        | inr placed ↦ absurd (astray ((misplaced_iff path).0 placed))
      ]
  PathPatternFault-complete path e (n, h) = part_complete path e n (unfold PartOfPattern in h)

  pub valid_path_pattern_error :
      (path : Bytes) (e : PathError) → (valid_path_pattern path ≡ err e) ↔ PathPatternFault path e
  valid_path_pattern_error path e =
      (PathPatternFault-sound path e, PathPatternFault-complete path e)
