-- ===== src/Authz/Principal.antt =====
-- authz/authz.go, the verified caller and the operation check. A nil `*Principal` is `none`.
pub mod Entitlement
pub mod Actions
pub mod Decisions
pub mod Confinement
use maintainerd_sdk.Prelude.{
  Bool, true, false, not, ◌&&◌, ◌||◌, List, [], ◌∷◌, Option, none, some, Result, ok, err, Slice,
  elements, if◌then◌else◌,
}
use maintainerd_sdk.Text.{Bytes, codes, ◌==◌, Unicode}
use maintainerd_sdk.Mrn.{Mrn, matches, parse, parse_pattern}
use maintainerd_sdk.Authz.Grant.{Grant, wildcard_action}

abbrev pub actor_kind_user : Bytes
actor_kind_user = codes "user"

abbrev pub actor_kind_service : Bytes
actor_kind_service = codes "service"

pub record Principal : Type 0 where
  pub subject : Bytes
  pub kind : Bytes
  pub tenant : Bytes
  pub scopes : List Bytes
  pub grants : List Grant
  pub blanket_actions : Slice Bytes

-- The loop of `actionCovers` over the service's blanket actions.
unfoldable pub is_blanket : List Bytes → Bytes → Bool
is_blanket [] granted = false
is_blanket (blanket ∷ rest) granted =
    if not (blanket == []) && granted == blanket then true else is_blanket rest granted

unfoldable pub action_covers : Principal → Bytes → Bytes → Bool
action_covers p granted required =
    if granted == required || granted == wildcard_action
    then true
    else is_blanket (elements p.blanket_actions) granted

-- The loop of `HasAction`.
unfoldable pub any_covers : Principal → Bytes → List Grant → Bool
any_covers p action [] = false
any_covers p action (g ∷ gs) =
    if action_covers p g.action action then true else any_covers p action gs

unfoldable pub has_action : Option Principal → Bytes → Bool
has_action none action = false
has_action (some p) action = if action == [] then false else any_covers p action p.grants

-- The loop of `HasScope`.
unfoldable pub scope_in : Bytes → List Bytes → Bool
scope_in scope [] = false
scope_in scope (s ∷ scopes) = if s == scope then true else scope_in scope scopes

unfoldable pub has_scope : Option Principal → Bytes → Bool
has_scope none scope = false
has_scope (some p) scope = scope_in scope p.scopes

unfoldable pub has_any_scope : Option Principal → List Bytes → Bool
has_any_scope p [] = false
has_any_scope p (s ∷ scopes) = if has_scope p s then true else has_any_scope p scopes

module _ ⦃u : Unicode⦄ where
  -- The loop of `Allows` over the grants, for a target that was parsed.
  unfoldable pub any_grant_allows : Principal → Bytes → Mrn → List Grant → Bool
  any_grant_allows p action target [] = false
  any_grant_allows p action target (g ∷ gs) =
      let rest = any_grant_allows p action target gs in
      if not (action_covers p g.action action)
      then rest
      else if g.resource == []
      then true
      else elim (parse_pattern g.resource) [
        | err perr ↦ rest
        | ok pattern ↦ if matches pattern target then true else rest
      ]

  unfoldable pub allows : Option Principal → Bytes → Bytes → Bool
  allows none action resource_mrn = false
  allows (some p) action resource_mrn =
      if action == [] || resource_mrn == [] then false else elim (parse resource_mrn) [
        | err e ↦ false
        | ok target ↦ any_grant_allows p action target p.grants
      ]

  unfoldable pub allows_any : Option Principal → Bytes → List Bytes → Bool
  allows_any p resource_mrn [] = false
  allows_any p resource_mrn (a ∷ actions) =
      if allows p a resource_mrn then true else allows_any p resource_mrn actions
