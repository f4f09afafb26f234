-- ===== src/Authz/Principal/Confinement.antt =====
-- How far grants reach: those that name a tenant, and those that name no resource.
use mathlib.Core.List.{Memᴰ}
use mathlib.Core.Path.{subst}
use maintainerd_sdk.Prelude.{
  ◌≡◌, refl, sym, ap, ◌∙◌, ◌≢◌, ◌⊎◌, inl, inr, true, [], ◌∷◌, ◌++◌, some, ok, elements,
}
use maintainerd_sdk.Text.{Bytes, Unicode}
use maintainerd_sdk.Mrn.{
  Mrn, Pattern, star, render, mrn_to_string, pattern_to_string, parse, parse_pattern,
}
use maintainerd_sdk.Mrn.Grammar.{IsResource}
use maintainerd_sdk.Mrn.Parsing.{parse_iff, parse_pattern_iff}
use maintainerd_sdk.Text.Laws.{Lacks}
use maintainerd_sdk.Text.Space.Trim.{IsTrimmed}
use maintainerd_sdk.Authz.Grant.{Grant, parse_grant}
use maintainerd_sdk.Authz.Grant.Forms.{parse_open}
use maintainerd_sdk.Authz.Principal.{Principal, allows, has_action}
use maintainerd_sdk.Authz.Principal.Entitlement.{Reaches}
use maintainerd_sdk.Authz.Principal.Actions.{has_action_iff}
use maintainerd_sdk.Authz.Principal.Decisions.{allows_iff}

pattern_to_string-ne-nil : (p : Pattern) → pattern_to_string p ≢ []
unfolding pattern_to_string render
pattern_to_string-ne-nil p e = cc

module _ ⦃u : Unicode⦄ where
  -- The grant is narrowed by a pattern that names the tenant.
  pub record IsConfined (tenant : Bytes) (g : Grant) : Type 0 where
    pub pattern : Pattern
    pub parsed : parse_pattern g.resource ≡ ok pattern
    pub named : pattern.tenant ≡ tenant

  empty_pattern : (p : Pattern) → parse_pattern [] ≢ ok p
  empty_pattern p h = pattern_to_string-ne-nil p (sym ((parse_pattern_iff [] p).0 h).0)

  confined_reach :
      (tenant : Bytes) (g : Grant) (m : Mrn)
      → tenant ≢ star
      → IsConfined tenant g
      → Reaches g m
      → m.tenant ≡ tenant
  confined_reach tenant g m plain c (inl bare) =
      absurd (empty_pattern c.pattern (subst (λ r. parse_pattern r ≡ ok c.pattern) bare c.parsed))
  confined_reach tenant g m plain c (inr (p, parsed, cover)) =
      let same : p ≡ c.pattern = cc (c.parsed) in
      let named : p.tenant ≡ tenant = ap (λ (q : Pattern). q.tenant) same ∙ c.named in
      elim (cover.tenant) [
        | inl wild ↦ absurd (plain (sym named ∙ wild))
        | inr exact ↦ sym exact ∙ named
      ]

  -- If every grant of a principal is narrowed to a pattern that names one tenant, no wildcard, then
  -- `Allows` is true only of texts that `Parse` reads as resources of that tenant, also for a
  -- wildcard or blanket action.
  pub allows_confined :
      (tenant : Bytes) (p : Principal) (action resource : Bytes)
      → tenant ≢ star
      → ((g : Grant) → Memᴰ g p.grants → IsConfined tenant g)
      → allows (some p) action resource ≡ true
      → (m : Mrn) × (parse resource ≡ ok m) × IsResource m × (m.tenant ≡ tenant)
  allows_confined tenant p action resource plain confined h =
      let (named, (m, spelled, good, e)) = (allows_iff p action resource).0 h in
      (
        m,
        (parse_iff resource m).1 (spelled, good),
        good,
        confined_reach tenant e.grant m plain (confined e.grant e.held) e.reaches,
      )

  -- A caller that may act on some resource passes the check of the action alone: the surface check
  -- refuses nobody whom the operation check would let through.
  pub has_action_of_allows :
      (p : Principal) (action resource : Bytes)
      → allows (some p) action resource ≡ true
      → has_action (some p) action ≡ true
  has_action_of_allows p action resource h =
      let (named, (m, spelled, good, e)) = (allows_iff p action resource).0 h in
      (has_action_iff p action).1 (named, (e.grant, e.held, e.covers))

  -- More grants and more blanket actions never take a permission away: there are no denying grants.
  pub allows_monotone :
      (p q : Principal) (action resource : Bytes)
      → ((g : Grant) → Memᴰ g p.grants → Memᴰ g q.grants)
      → ((b : Bytes) → Memᴰ b (elements p.blanket_actions) → Memᴰ b (elements q.blanket_actions))
      → allows (some p) action resource ≡ true
      → allows (some q) action resource ≡ true
  allows_monotone p q action resource grants blanket h =
      let (named, (m, spelled, good, e)) = (allows_iff p action resource).0 h in
      (allows_iff q action resource).1 (
        named,
        (
          m,
          spelled,
          good,
          record {
            grant = e.grant;
            held = grants e.grant e.held;
            covers = elim (e.covers) [
              | inl exact ↦ inl exact
              | inr (inl wild) ↦ inr (inl wild)
              | inr (inr (filled, b)) ↦ inr (inr (filled, blanket e.grant.action b))
            ];
            reaches = e.reaches;
          },
        ),
      )

  bare_grant_unbounded :
      (p : Principal) (action : Bytes) (m : Mrn)
      → action ≢ []
      → Memᴰ (record { action = action; resource = [] }) p.grants
      → IsResource m
      → allows (some p) action (mrn_to_string m) ≡ true
  bare_grant_unbounded p action m named held good = (allows_iff p action (mrn_to_string m)).1 (
    named,
    (
      m,
      refl,
      good,
      record {
        grant = record { action = action; resource = [] };
        held = held;
        covers = inl refl;
        reaches = inl refl;
      },
    ),
  )

  -- An entry of a claim that reads `action`, or `action=` with no pattern behind it, allows its
  -- action on every resource of every service, not only on those of the service that the action is
  -- named after.
  pub open_entry_unbounded :
      (p : Principal) (action entry : Bytes) (m : Mrn)
      → action ≢ []
      → IsTrimmed action
      → Lacks b'=' action
      → (entry ≡ action) ⊎ (entry ≡ action ++ b'=' ∷ [])
      → Memᴰ (parse_grant entry) p.grants
      → IsResource m
      → allows (some p) action (mrn_to_string m) ≡ true
  open_entry_unbounded p action entry m named trimmed plain either held good =
      bare_grant_unbounded p action m named
        (subst (λ g. Memᴰ g p.grants) (parse_open action entry trimmed plain either) held) good
