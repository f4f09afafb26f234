-- ===== src/Authz/Guard/Claimed.antt =====
-- What the claims of a token entitle its caller to: from the entries of the token to one decision.
use mathlib.Core.List.{Memᴰ}
use mathlib.Core.List.Memᴰ
use mathlib.Core.Path.{subst}
use maintainerd_sdk.Prelude.{
  ◌≡◌, refl, sym, ◌∙◌, ◌≢◌, ◌⊎◌, ◌↔◌, inl, inr, true, false, ◌&&◌, List, [], ◌∷◌, ◌++◌, none, some,
  elements, Bool-cases, Slice,
}
use maintainerd_sdk.Text.{Bytes, Unicode}
use maintainerd_sdk.Text.Maps.{lookup}
use maintainerd_sdk.Mrn.{Mrn, mrn_to_string}
use maintainerd_sdk.Mrn.Grammar.{IsResource}
use maintainerd_sdk.Auth.{arr, Anys, Claims}
use maintainerd_sdk.Authz.Grant.{Grant, parse_grant, parse_grants, wildcard_action}
use maintainerd_sdk.Authz.Principal.{Principal, allows}
use maintainerd_sdk.Authz.Principal.Entitlement.{Reaches, Entitles}
use maintainerd_sdk.Authz.Principal.Decisions.{allows_iff}
use maintainerd_sdk.Authz.Claims.{claim_permissions, permissions_claim, principal_of_claims}
use maintainerd_sdk.Authz.Claims.Entries.{
  IsItem, blank_action, grant_entry, entry_grant, permissions_claim-IsItem, item_claim,
}
use maintainerd_sdk.Authz.Guard.{Guard, is_nil, has_elements, with_blanket}

-- The token says the entry: as a word of its scope, or in its array of permissions.
abbrev pub IsSaid : Bytes → Claims → Type 0
IsSaid entry c =
    Memᴰ entry c.scopes
    ⊎ ((vs : Anys) × (lookup claim_permissions c.raw ≡ some (arr vs)) × IsItem entry vs)

-- A granted action covers itself; the wildcard and the table's blanket actions cover every one.
abbrev pub CoversAction : List Bytes → Bytes → Bytes → Type 0
CoversAction blanket granted required =
    (granted ≡ required) ⊎ ((granted ≡ wildcard_action) ⊎ ((granted ≢ []) × Memᴰ granted blanket))

covers_named :
    (blanket : List Bytes) (granted required : Bytes)
    → required ≢ []
    → CoversAction blanket granted required
    → granted ≢ []
covers_named blanket granted required n (inl same) e = n (sym same ∙ e)
covers_named blanket granted required n (inr (inl wild)) e = absurd (cc)
covers_named blanket granted required n (inr (inr (named, m))) e = named e

no_elements : (b : Slice Bytes) → has_elements b ≡ false → elements b ≡ []
no_elements none h = refl
no_elements (some []) h = refl
no_elements (some (x ∷ xs)) h = absurd (cc)

module _ (g : Guard) (q : Principal) where
  with_blanket-grants : (with_blanket g q).grants ≡ q.grants
  unfolding with_blanket
  with_blanket-grants =
      elim (Bool-cases (is_nil q.blanket_actions && has_elements g.permissions.blanket_actions)) [
        | inl copied ↦ rw copied refl
        | inr kept ↦ rw kept refl
      ]

  with_blanket-elements :
      q.blanket_actions ≡ none
      → elements (with_blanket g q).blanket_actions ≡ elements g.permissions.blanket_actions
  unfolding with_blanket
  with_blanket-elements h = elim (Bool-cases (has_elements g.permissions.blanket_actions)) [
    | inl copied ↦ rw (h, copied) refl
    | inr kept ↦ rw (h, kept) (sym (no_elements g.permissions.blanket_actions kept))
  ]

module _ ⦃u : Unicode⦄ (g : Guard) (c : Claims) where
  -- The token says an entry whose action covers the one asked for, and that reaches the target.
  pub record Speaks (action : Bytes) (target : Mrn) : Type 0 where
    pub entry : Bytes
    pub said : IsSaid entry c
    pub covers :
        CoversAction (elements g.permissions.blanket_actions) (parse_grant entry).action action
    pub reaches : Reaches (parse_grant entry) target

  -- The caller that the guard makes of the token's claims.
  abbrev pub caller : Principal
  caller = with_blanket g (principal_of_claims c)

  abbrev held_texts : List Bytes
  held_texts = c.scopes ++ permissions_claim (lookup claim_permissions c.raw)

  caller_grants : caller.grants ≡ parse_grants held_texts
  caller_grants =
      with_blanket-grants g (principal_of_claims c) ∙ (unfold principal_of_claims in refl)

  caller_blanket : elements caller.blanket_actions ≡ elements g.permissions.blanket_actions
  caller_blanket =
      with_blanket-elements g (principal_of_claims c) (unfold principal_of_claims in refl)

  held_texts-IsSaid : (e : Bytes) → Memᴰ e held_texts → IsSaid e c
  held_texts-IsSaid e m = elim (Memᴰ.append_cases c.scopes m) [
    | inl word ↦ inl word
    | inr entry ↦ inr (permissions_claim-IsItem (lookup claim_permissions c.raw) e entry)
  ]

  held_of_said : (e : Bytes) → IsSaid e c → (parse_grant e).action ≢ [] → Memᴰ e held_texts
  held_of_said e (inl word) n = Memᴰ.append_left _ word
  held_of_said e (inr (vs, at, h)) n =
      Memᴰ.append_right c.scopes
        (item_claim (lookup claim_permissions c.raw) e vs at h (λ blank. n (blank_action e blank)))

  Speaks-Entitles : (action : Bytes) (m : Mrn) → Entitles caller action m → Speaks action m
  Speaks-Entitles action m t =
      let (e, at, same) =
        grant_entry held_texts t.grant (subst (Memᴰ t.grant) caller_grants t.held) in
      record {
        entry = e;
        said = held_texts-IsSaid e at;
        covers =
            subst
              (λ (h : Grant). CoversAction (elements g.permissions.blanket_actions) h.action action)
              same (subst (λ b. CoversAction b t.grant.action action) caller_blanket t.covers);
        reaches = subst (λ h. Reaches h m) same t.reaches;
      }

  Entitles-Speaks :
      (action : Bytes) (m : Mrn) → action ≢ [] → Speaks action m → Entitles caller action m
  Entitles-Speaks action m n s =
      let blanket = elements g.permissions.blanket_actions in
      let named = covers_named blanket (parse_grant s.entry).action action n s.covers in
      record {
        grant = parse_grant s.entry;
        held =
            subst (Memᴰ (parse_grant s.entry)) (sym caller_grants)
              (entry_grant held_texts s.entry (held_of_said s.entry s.said named) named);
        covers =
            subst (λ b. CoversAction b (parse_grant s.entry).action action) (sym caller_blanket)
              s.covers;
        reaches = s.reaches;
      }

  -- The caller that a guard makes of a token may act on a resource exactly if the text names a
  -- resource of the grammar, an action is named, and the token itself says an entry, as a word of
  -- its scope or in its array of permissions, whose action is the one asked for, the wildcard or a
  -- blanket action of the service, and whose pattern, if it has one, parses and covers the
  -- resource. Nothing else that stands in a token grants anything.
  pub allows-Speaks_iff :
      (action resource : Bytes)
      → (allows (some caller) action resource ≡ true) ↔ (
          (action ≢ [])
          × ((m : Mrn) × (resource ≡ mrn_to_string m) × IsResource m × Speaks action m))
  allows-Speaks_iff action resource = (
    λ h.
        let (n, (m, spelled, good, t)) = (allows_iff caller action resource).0 h in
        (n, (m, spelled, good, Speaks-Entitles action m t)),
    λ (n, (m, spelled, good, s)).
        (allows_iff caller action resource).1 (n, (m, spelled, good, Entitles-Speaks action m n s)),
  )
