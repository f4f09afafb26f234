-- ===== src/Authz/Permissions/Reordered.antt =====
-- Two listings of one permission table, and what `Resolve` makes of them.
use maintainerd_sdk.Prelude.{◌≡◌, ap, ◌∙◌, some, none, if◌then◌else◌}
use maintainerd_sdk.Text.{Bytes, Unicode}
use maintainerd_sdk.Text.Maps.{lookup}
use maintainerd_sdk.Text.Maps.Reordered.{IsReordered, lookup-IsReordered}
use maintainerd_sdk.Authz.Surface.{Surface, is_grpc, exact_key, first_segment}
use maintainerd_sdk.Authz.Permissions.{
  Map, find_route_key, resolve_method, resolve_route, resolve, actor_or_any, pair_rule,
}

-- The four Go maps are listed in any order; all other fields are the same.
pub record IsSameMap (m n : Map) : Type 0 where
  pub prefix : m.prefix ≡ n.prefix
  pub exact : IsReordered m.exact n.exact
  pub routes : IsReordered m.routes n.routes
  pub methods : IsReordered m.methods n.methods
  pub actors : IsReordered m.method_actors n.method_actors
  pub operations : m.operation_permissions ≡ n.operation_permissions
  pub blanket : m.blanket_actions ≡ n.blanket_actions
  pub paths : m.exempt_paths ≡ n.exempt_paths
  pub exempt_grpc : m.exempt_methods ≡ n.exempt_methods
  pub exempt : m.exempt ≡ n.exempt
  pub key : m.route_key ≡ n.route_key

resolve_method-IsSameMap :
    (m n : Map) (full_method : Bytes)
    → IsSameMap m n
    → resolve_method m full_method ≡ resolve_method n full_method
unfolding resolve_method
resolve_method-IsSameMap m n full_method h =
    let found = lookup-IsReordered full_method m.methods n.methods h.methods in
    let actor = lookup-IsReordered full_method m.method_actors n.method_actors h.actors in
    λ i. elim (found i) [
      | none ↦ none
      | some p ↦ some (record { permission = p; actor = actor_or_any (actor i) })
    ]

find_route_key-IsSameMap :
    (m n : Map) (s : Surface) → IsSameMap m n → find_route_key m s ≡ find_route_key n s
unfolding find_route_key
find_route_key-IsSameMap m n s h =
    λ i. elim (h.key i) [ none ↦ first_segment (h.prefix i) s.path | some key ↦ key s ]

resolve_route-IsSameMap :
    (m n : Map) (s : Surface) → IsSameMap m n → resolve_route m s ≡ resolve_route n s
unfolding resolve_route
resolve_route-IsSameMap m n s h =
    let found =
      ap (λ k. lookup k m.routes) (find_route_key-IsSameMap m n s h)
      ∙ lookup-IsReordered (find_route_key n s) m.routes n.routes h.routes in
    λ i. elim (found i) [ none ↦ none | some p ↦ some (pair_rule s.http_method p) ]

module _ ⦃u : Unicode⦄ where
  pub resolve-IsSameMap : (m n : Map) (s : Surface) → IsSameMap m n → resolve m s ≡ resolve n s
  unfolding resolve
  resolve-IsSameMap m n s h =
      let found = lookup-IsReordered (exact_key s.http_method s.path) m.exact n.exact h.exact in
      λ i.
        if is_grpc s
        then resolve_method-IsSameMap m n s.full_method h i
        else elim (found i) [ some r ↦ some r | none ↦ resolve_route-IsSameMap m n s h i ]
