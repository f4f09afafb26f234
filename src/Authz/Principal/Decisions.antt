-- ===== src/Authz/Principal/Decisions.antt =====
-- The checks of a principal decide exactly what its grants entitle it to.
use mathlib.Core.List.{Memᴰ}
use maintainerd_sdk.Prelude.{
  ◌≡◌, refl, sym, ap, ◌∙◌, ◌≢◌, ◌↔◌, inl, inr, Bool, true, false, ◌&&◌, List, [], ◌∷◌, some, arith,
  Result, ok, err, Bool-cases, Result-cases, ◌||◌, if◌then◌else◌, ok-injective, &&-eq-true,
}
use maintainerd_sdk.Text.{Bytes, ◌==◌, Unicode}
use maintainerd_sdk.Text.Laws.{eq_iff}
use maintainerd_sdk.Mrn.{
  Mrn, Pattern, mrn_to_string, render, MrnError, matches, parse, parse_pattern,
}
use maintainerd_sdk.Mrn.Grammar.{Covers, IsResource}
use maintainerd_sdk.Mrn.Parsing.{parse_iff}
use maintainerd_sdk.Mrn.Matching.{matches_iff}
use maintainerd_sdk.Authz.Grant.{Grant}
use maintainerd_sdk.Authz.Principal.{Principal, action_covers, any_grant_allows, allows}
use maintainerd_sdk.Authz.Principal.Entitlement.{ActionCovers, Reaches, Entitles}
use maintainerd_sdk.Authz.Principal.Actions.{action_covers_iff}

module _ ⦃u : Unicode⦄ where
  pattern_passes : Result MrnError Pattern → Mrn → Bool
  pattern_passes (err e) target = false
  pattern_passes (ok q) target = matches q target

  -- Whether a grant that covers the action ends the loop of `Allows`.
  reaches : Grant → Mrn → Bool
  reaches g target = g.resource == [] || pattern_passes (parse_pattern g.resource) target

  pattern_passes_iff :
      (r : Result MrnError Pattern) (target : Mrn)
      → (pattern_passes r target ≡ true) ↔ ((q : Pattern) × (r ≡ ok q) × Covers q target)
  unfolding pattern_passes
  pattern_passes_iff (err e) target = (λ h. cc, λ (q, f, c). cc)
  pattern_passes_iff (ok q) target = (
    λ h. (q, refl, (matches_iff q target).0 h),
    λ (q', f, c). (matches_iff q target).1 (rw (ok-injective q q' f) c),
  )

  reaches_iff : (g : Grant) (target : Mrn) → (reaches g target ≡ true) ↔ Reaches g target
  unfolding reaches
  reaches_iff g target = (
    λ h. elim (Bool-cases (g.resource == [])) [
      | inl bare ↦ inl ((eq_iff g.resource []).0 bare)
      | inr narrow ↦ inr ((pattern_passes_iff (parse_pattern g.resource) target).0 (ground arith))
    ],
    λ r. elim r [
      | inl bare ↦ ground (arith, eq_iff g.resource [])
      | inr found ↦ ground (arith, (pattern_passes_iff (parse_pattern g.resource) target).1 found)
    ],
  )

  module _ (p : Principal) (action : Bytes) (target : Mrn) where
    any_grant_allows_round :
        (g : Grant) (gs : List Grant)
        → any_grant_allows p action target (g ∷ gs) ≡ (
            if action_covers p g.action action && reaches g target
            then true
            else any_grant_allows p action target gs)
    unfolding any_grant_allows reaches pattern_passes
    any_grant_allows_round g gs = ground arith

    any_grant_allows_sound :
        (gs : List Grant)
        → any_grant_allows p action target gs ≡ true
        → (g : Grant) × Memᴰ g gs × ActionCovers p g.action action × Reaches g target
    any_grant_allows_sound [] h = absurd (unfold any_grant_allows in cc)
    any_grant_allows_sound (g ∷ gs) h =
        elim (Bool-cases (action_covers p g.action action && reaches g target)) [
          | inl here ↦
              let (covers, reached) = &&-eq-true _ _ here in
              (
                g,
                Memᴰ.head refl,
                (action_covers_iff p g.action action).0 covers,
                (reaches_iff g target).0 reached,
              )
          | inr later ↦
              let (g', m, c, r) =
                any_grant_allows_sound gs (ground (arith, any_grant_allows_round g gs)) in
              (g', Memᴰ.tail m, c, r)
        ]

    any_grant_allows_complete :
        (g : Grant) {gs : List Grant}
        → Memᴰ g gs
        → ActionCovers p g.action action
        → Reaches g target
        → any_grant_allows p action target gs ≡ true
    any_grant_allows_complete g (Memᴰ.head {x} {xs} e) c r =
        let covered : action_covers p x.action action ≡ true =
          ap (λ (y : Grant). action_covers p y.action action) (sym e)
          ∙ (action_covers_iff p g.action action).1 c in
        let reached : reaches x target ≡ true =
          ap (λ (y : Grant). reaches y target) (sym e) ∙ (reaches_iff g target).1 r in
        ground (arith, any_grant_allows_round x xs)
    any_grant_allows_complete g (Memᴰ.tail {x} {xs} m) c r =
        ground (arith, any_grant_allows_round x xs, any_grant_allows_complete g m c r)

  allows_guards :
      (p : Principal) (action resource : Bytes)
      → allows (some p) action resource ≡ true
      → (action ≢ [])
        × ((m : Mrn) × (parse resource ≡ ok m) × (any_grant_allows p action m p.grants ≡ true))
  unfolding allows
  allows_guards p action resource h = elim (Result-cases (parse resource)) [
    | inl (e, failed) ↦ absurd (ground arith)
    | inr (m, found) ↦ (ground (arith, eq_iff action []), (m, found, ground arith))
  ]

  mrn_to_string-ne-nil : (m : Mrn) → mrn_to_string m ≢ []
  unfolding mrn_to_string render
  mrn_to_string-ne-nil m e = cc

  allows_entitled :
      (p : Principal) (action resource : Bytes) (m : Mrn)
      → action ≢ []
      → resource ≡ mrn_to_string m
      → IsResource m
      → Entitles p action m
      → allows (some p) action resource ≡ true
  unfolding allows
  allows_entitled p action resource m named spelled good e =
      let passed = any_grant_allows_complete p action m e.grant e.held e.covers e.reaches in
      let parsed = (parse_iff resource m).1 (spelled, good) in
      ground (arith, eq_iff action [], eq_iff (mrn_to_string m) [], mrn_to_string-ne-nil m)

  -- `Allows` holds exactly if an action is named, the text names a resource of the grammar, and
  -- some grant held by the principal covers the action and reaches that resource. So it is false
  -- for a text that is not a valid name, and a pattern that does not parse grants nothing.
  pub allows_iff :
      (p : Principal) (action resource : Bytes)
      → (allows (some p) action resource ≡ true) ↔ (
          (action ≢ [])
          × ((m : Mrn) × (resource ≡ mrn_to_string m) × IsResource m × Entitles p action m))
  allows_iff p action resource = (
    λ h.
        let (named, (m, found, passed)) = allows_guards p action resource h in
        let (spelled, good) = (parse_iff resource m).0 found in
        let (g, held, covers, reached) = any_grant_allows_sound p action m p.grants passed in
        (
          named,
          (m, spelled, good, record { grant = g; held = held; covers = covers; reaches = reached }),
        ),
    λ (named, (m, spelled, good, e)). allows_entitled p action resource m named spelled good e,
  )
