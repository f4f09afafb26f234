-- ===== src/Authz/Permissions.antt =====
-- authz/permissions.go: the table from surfaces to rules, its precedence, its exemptions, and the
-- permissions that it can demand.
pub mod Table
pub mod Declared
pub mod Drift
pub mod Iteration
pub mod Reordered
pub mod Abstract
use maintainerd_sdk.Prelude.{
  ℕ, Bool, true, false, not, ◌&&◌, ◌||◌, List, [], ◌∷◌, ◌++◌, Option, none, some, Slice, elements,
  if◌then◌else◌,
}
use maintainerd_sdk.Text.{Bytes, codes, ◌==◌, Unicode}
use maintainerd_sdk.Text.Maps.{GoMap, lookup}
use maintainerd_sdk.Text.Sorting.{sort_strings}
use maintainerd_sdk.Authz.Grant.{wildcard_action}
use maintainerd_sdk.Authz.Principal.{scope_in}
use maintainerd_sdk.Authz.Surface.{
  Surface, Actor, Rule, Perms, is_grpc, actor_any, exact_key, first_segment, path_has_prefix,
}

pub record Map : Type 0 where
  pub prefix : Bytes
  pub exact : GoMap Rule
  pub routes : GoMap Perms
  pub methods : GoMap Bytes
  pub method_actors : GoMap Actor
  pub operation_permissions : List Bytes
  pub blanket_actions : Slice Bytes
  pub exempt_paths : List Bytes
  pub exempt_methods : List Bytes
  pub exempt : Option (Surface → Bool)
  pub route_key : Option (Surface → Bytes)

-- `m[key]` for a missing key is the zero value.
abbrev pub actor_or_any : Option Actor → Actor
actor_or_any none = actor_any
actor_or_any (some a) = a

unfoldable pub find_route_key : Map → Surface → Bytes
find_route_key m s = elim m.route_key [ none ↦ first_segment m.prefix s.path | some key ↦ key s ]

abbrev pub is_read : Bytes → Bool
is_read method = method == codes "GET" || method == codes "HEAD"

abbrev pub pair_rule : Bytes → Perms → Rule
pair_rule method p =
    if is_read method
    then record { permission = p.read; actor = p.read_actor }
    else record { permission = p.write; actor = p.write_actor }

unfoldable pub resolve_method : Map → Bytes → Option Rule
resolve_method m full_method = elim (lookup full_method m.methods) [
  | none ↦ none
  | some p ↦
      some (record { permission = p; actor = actor_or_any (lookup full_method m.method_actors) })
]

unfoldable pub resolve_route : Map → Surface → Option Rule
resolve_route m s = elim (lookup (find_route_key m s) m.routes) [
  | none ↦ none
  | some p ↦ some (pair_rule s.http_method p)
]

module _ ⦃u : Unicode⦄ where
  -- `Map.Resolve`; `ok == false` is `none`.
  unfoldable pub resolve : Map → Surface → Option Rule
  resolve m s =
      if is_grpc s
      then resolve_method m s.full_method
      else elim (lookup (exact_key s.http_method s.path) m.exact) [
        | some r ↦ some r
        | none ↦ resolve_route m s
      ]

  -- `Map.Required`
  unfoldable pub required : Map → Surface → Option Bytes
  required m s = elim (resolve m s) [ none ↦ none | some r ↦ some r.permission ]

abbrev asks_exempt : Option (Surface → Bool) → Surface → Bool
asks_exempt none s = false
asks_exempt (some exempt) s = exempt s

-- The loop over `ExemptMethods`.
unfoldable pub exempt_method : List Bytes → Bytes → Bool
exempt_method [] full_method = false
exempt_method (method ∷ methods) full_method =
    if not (method == []) && method == full_method then true else exempt_method methods full_method

-- The loop over `ExemptPaths`.
unfoldable pub exempt_path : List Bytes → Bytes → Bool
exempt_path [] path = false
exempt_path (prefix ∷ prefixes) path =
    if path_has_prefix path prefix then true else exempt_path prefixes path

unfoldable pub is_exempt : Map → Surface → Bool
is_exempt m s =
    if asks_exempt m.exempt s
    then true
    else if is_grpc s
    then exempt_method m.exempt_methods s.full_method
    else exempt_path m.exempt_paths s.path

-- The closure `add`; `seen` holds exactly the texts that stand in `out`.
unfoldable pub add : Bytes → List Bytes → List Bytes
add p out = if p == [] then out else if scope_in p out then out else out ++ p ∷ []

unfoldable pub add_exact : GoMap Rule → List Bytes → List Bytes
add_exact [] out = out
add_exact ((k, r) ∷ m) out = add_exact m (add r.permission out)

unfoldable pub add_routes : GoMap Perms → List Bytes → List Bytes
add_routes [] out = out
add_routes ((k, p) ∷ m) out = add_routes m (add p.write (add p.read out))

unfoldable pub add_methods : GoMap Bytes → List Bytes → List Bytes
add_methods [] out = out
add_methods ((k, p) ∷ m) out = add_methods m (add p out)

unfoldable pub add_all : List Bytes → List Bytes → List Bytes
add_all [] out = out
add_all (p ∷ ps) out = add_all ps (add p out)

unfoldable pub add_blanket : List Bytes → List Bytes → List Bytes
add_blanket [] out = out
add_blanket (p ∷ ps) out = add_blanket ps (if not (p == wildcard_action) then add p out else out)

unfoldable pub collect_permissions : Map → List Bytes
collect_permissions m = add_blanket (elements m.blanket_actions) (
    add_all m.operation_permissions
      (add_methods m.methods (add_routes m.routes (add_exact m.exact []))))

-- `Map.DeclaredPermissions`
unfoldable pub declared_permissions : Map → List Bytes
declared_permissions m = sort_strings (collect_permissions m)
