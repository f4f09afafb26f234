-- ===== src/Mrn/Errors.antt =====
-- The parsers refuse a text with the first fault that it has, and with nothing else.
use maintainerd_sdk.Prelude.{
  ◌≡◌, refl, sym, ap, ◌∙◌, ◌↔◌, inl, inr, [], arith, err, Bool-cases, Result, Result-cases, get_or,
  not, ◌&&◌, ◌>>=◌,
}
use mathlib.Core.Path.{subst}
use maintainerd_sdk.Text.{Bytes, ◌==◌, has_prefix, Unicode}
use maintainerd_sdk.Text.Laws.{has_prefix_iff}
use maintainerd_sdk.Mrn.{
  star, prefix, PathError, MrnError, no_prefix, part_count, Mrn, Pattern, valid_segment,
  valid_resource_path, valid_path_pattern, split, parse, parse_pattern, check_resource,
  check_pattern,
}
use maintainerd_sdk.Mrn.Grammar.{IsSegment, IsSegmentPattern}
use maintainerd_sdk.Mrn.Faults.{
  PathFault, PathPatternFault, PartFault, IsCut, HasScheme, IsCuttable, Fault,
}
use maintainerd_sdk.Mrn.Split.{split-render, split_parts, split_refuses, split_no_prefix}
use maintainerd_sdk.Mrn.Valid.{valid_segment_iff}
use maintainerd_sdk.Mrn.ValidPattern.{IsSegmentPattern-iff}
use maintainerd_sdk.Mrn.PathErrors.{valid_resource_path_error, valid_path_pattern_error}
use maintainerd_sdk.Mrn.Rungs.{ladder_iff, Tests, Rung-fault}

module _ (IsPart : Bytes → Type 0) (IsFault : Bytes → PathError → Type 0) where
  scheme-Fault : (s : Bytes) (e : MrnError) → split s ≡ err e → Fault IsPart IsFault s e
  scheme-Fault s e h = elim (split_refuses s e h) [
    | inl (same, starts) ↦
        subst (Fault IsPart IsFault s) (sym same)
          (λ scheme. ground (arith, (has_prefix_iff s prefix).1 scheme))
    | inr (same, starts) ↦ subst (Fault IsPart IsFault s) (sym same) (
      (has_prefix_iff s prefix).0 starts,
      λ (a, b, c, d, (spelled, ha, hb, hc)).
          let parted = ap split spelled ∙ split-render a b c d ha hb hc in absurd (ground arith),
    )
  ]

  part-Fault :
      (s a b c d : Bytes) (e : MrnError)
      → IsCut s a b c d
      → PartFault IsPart IsFault a b c d e
      → Fault IsPart IsFault s e
  part-Fault s a b c d no_prefix cut h = absurd h
  part-Fault s a b c d part_count cut h = absurd h
  part-Fault s a b c d e cut h = (a, b, c, d, cut, h)

-- A parser that checks the parts of a cut text.
abbrev parse_with :
    {A : Type 0} → (Bytes → Bytes → Bytes → Bytes → Result MrnError A) → Bytes → Result MrnError A
parse_with check s = do
  parts ← split s
  check (get_or parts 1 []) (get_or parts 2 []) (get_or parts 3 []) (get_or parts 4 [])

module _ (IsPart : Bytes → Type 0) (IsFault : Bytes → PathError → Type 0) {A : Type 0}
    (check : Bytes → Bytes → Bytes → Bytes → Result MrnError A)
    (checks : (a b c d : Bytes) (e : MrnError)
      → (check a b c d ≡ err e) ↔ PartFault IsPart IsFault a b c d e) where
  parse_cut : (s a b c d : Bytes) → IsCut s a b c d → parse_with check s ≡ check a b c d
  parse_cut s a b c d (spelled, ha, hb, hc) =
      let parted = ap split spelled ∙ split-render a b c d ha hb hc in rw parted refl

  parse-Fault_sound :
      (s : Bytes) (e : MrnError) → parse_with check s ≡ err e → Fault IsPart IsFault s e
  parse-Fault_sound s e h = elim (Result-cases (split s)) [
    | inl (k, failed) ↦ scheme-Fault IsPart IsFault s e (ground arith)
    | inr (parts, found) ↦
        let (a, b, c, d, spelled, same, ha, hb, hc) = split_parts s parts found in
        let cut : IsCut s a b c d = (spelled, ha, hb, hc) in
        part-Fault IsPart IsFault s a b c d e cut
          ((checks a b c d e).0 (sym (parse_cut s a b c d cut) ∙ h))
  ]

  uncut : (s : Bytes) → HasScheme s → (¬ IsCuttable s) → split s ≡ err part_count
  uncut s scheme whole = elim (Result-cases (split s)) [
    | inl (k, failed) ↦ elim (split_refuses s k failed) [
      | inl (same, starts) ↦ absurd (ground (arith, (has_prefix_iff s prefix).1 scheme))
      | inr (same, starts) ↦ failed ∙ ap err same
    ]
    | inr (parts, found) ↦
        let (a, b, c, d, spelled, same, ha, hb, hc) = split_parts s parts found in
        absurd (whole (a, b, c, d, (spelled, ha, hb, hc)))
  ]

  unprefixed : (s : Bytes) → (¬ HasScheme s) → split s ≡ err no_prefix
  unprefixed s h = split_no_prefix s (elim (Bool-cases (has_prefix s prefix)) [
    | inl starts ↦ absurd (h ((has_prefix_iff s prefix).0 starts))
    | inr other ↦ other
  ])

  parse-Fault_complete :
      (s : Bytes) (e : MrnError) → Fault IsPart IsFault s e → parse_with check s ≡ err e
  parse-Fault_complete s no_prefix h = rw (unprefixed s h) refl
  parse-Fault_complete s part_count h = rw (uncut s (h.0) (h.1)) refl
  parse-Fault_complete s e (a, b, c, d, cut, h) = parse_cut s a b c d cut ∙ (checks a b c d e).1 h

module _ ⦃u : Unicode⦄ where
  IsSegment-test : (s : Bytes) → Tests IsSegment PathFault (not (valid_segment s)) s
  IsSegment-test s = ground (arith, valid_segment_iff s)

  IsSegmentPattern-test :
      (s : Bytes)
      → Tests IsSegmentPattern PathPatternFault (not (s == star) && not (valid_segment s)) s
  IsSegmentPattern-test s = ground (arith, IsSegmentPattern-iff s)

  abbrev resource_parts : Bytes → Bytes → Bytes → Bytes → Result MrnError Mrn
  resource_parts a b c d =
      check_resource (record { service = a; tenant = b; project = c; resource_path = d })

  abbrev pattern_parts : Bytes → Bytes → Bytes → Bytes → Result MrnError Pattern
  pattern_parts a b c d =
      check_pattern (record { service = a; tenant = b; project = c; resource_path = d })

  resource_checks :
      (a b c d : Bytes) (e : MrnError)
      → (resource_parts a b c d ≡ err e) ↔ PartFault IsSegment PathFault a b c d e
  unfolding check_resource
  resource_checks a b c d e =
      let (down, up) = ladder_iff (a == []) _ _ _ (valid_resource_path d) _ e in
      let (out, back) =
        Rung-fault IsSegment PathFault a b c d _ _ _ (valid_resource_path d) e (IsSegment-test a)
          (IsSegment-test b) (IsSegment-test c) (valid_resource_path_error d) in
      (λ h. out (down h), λ h. up (back h))

  pattern_checks :
      (a b c d : Bytes) (e : MrnError)
      → (pattern_parts a b c d ≡ err e) ↔ PartFault IsSegmentPattern PathPatternFault a b c d e
  unfolding check_pattern
  pattern_checks a b c d e =
      let (down, up) = ladder_iff (a == []) _ _ _ (valid_path_pattern d) _ e in
      let (out, back) =
        Rung-fault IsSegmentPattern PathPatternFault a b c d _ _ _ (valid_path_pattern d) e
          (IsSegmentPattern-test a) (IsSegmentPattern-test b) (IsSegmentPattern-test c)
          (valid_path_pattern_error d) in
      (λ h. out (down h), λ h. up (back h))

  -- `Parse` and `ParsePattern` refuse a text with an error exactly if that is its first fault: no
  -- scheme; or fewer than five parts; or no service; or a service, tenant or project that is not of
  -- the alphabet; or a path, and there an empty one, a wildcard out of place, a slash in front, no
  -- UTF-8, or a character that is not printable.
  pub parse-Fault_iff :
      (s : Bytes) (e : MrnError)
      → ((parse s ≡ err e) ↔ Fault IsSegment PathFault s e)
        × ((parse_pattern s ≡ err e) ↔ Fault IsSegmentPattern PathPatternFault s e)
  unfolding parse parse_pattern
  parse-Fault_iff s e = (
    (
      parse-Fault_sound IsSegment PathFault resource_parts resource_checks s e,
      parse-Fault_complete IsSegment PathFault resource_parts resource_checks s e,
    ),
    (
      parse-Fault_sound IsSegmentPattern PathPatternFault pattern_parts pattern_checks s e,
      parse-Fault_complete IsSegmentPattern PathPatternFault pattern_parts pattern_checks s e,
    ),
  )
