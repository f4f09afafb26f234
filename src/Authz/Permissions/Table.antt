-- ===== src/Authz/Permissions/Table.antt =====
-- What stands in a permission table, as a plain list of texts with no order or uniqueness.
use maintainerd_sdk.Prelude.{
  ◌≡◌, refl, inl, inr, List, [], ◌∷◌, ◌++◌, Bool-cases, elements, if◌then◌else◌, not,
}
use maintainerd_sdk.Text.{Bytes, ◌==◌}
use maintainerd_sdk.Text.Maps.{GoMap}
use maintainerd_sdk.Authz.Grant.{wildcard_action}
use maintainerd_sdk.Authz.Surface.{Rule, Perms}
use maintainerd_sdk.Authz.Permissions.{
  Map, add, add_exact, add_routes, add_methods, add_all, add_blanket, collect_permissions,
}

abbrev pub rule_permissions : GoMap Rule → List Bytes
rule_permissions [] = []
rule_permissions ((k, r) ∷ m) = r.permission ∷ rule_permissions m

abbrev pub pair_permissions : GoMap Perms → List Bytes
pair_permissions [] = []
pair_permissions ((k, p) ∷ m) = p.read ∷ p.write ∷ pair_permissions m

abbrev pub method_permissions : GoMap Bytes → List Bytes
method_permissions [] = []
method_permissions ((k, p) ∷ m) = p ∷ method_permissions m

abbrev pub named_blanket : List Bytes → List Bytes
named_blanket [] = []
named_blanket (p ∷ ps) =
    if not (p == wildcard_action) then p ∷ named_blanket ps else named_blanket ps

-- Every permission that is written in the table: of exact routes, route pairs, methods, operations,
-- and blanket actions but the wildcard.
unfoldable pub demanded : Map → List Bytes
demanded m =
    rule_permissions m.exact
    ++ (pair_permissions m.routes
        ++ (method_permissions m.methods
            ++ (m.operation_permissions ++ named_blanket (elements m.blanket_actions))))

add_exact-add_all :
    (m : GoMap Rule) (out : List Bytes) → add_exact m out ≡ add_all (rule_permissions m) out
unfolding add_exact add_all
add_exact-add_all [] out = refl
add_exact-add_all ((k, r) ∷ m) out = add_exact-add_all m (add r.permission out)

add_routes-add_all :
    (m : GoMap Perms) (out : List Bytes) → add_routes m out ≡ add_all (pair_permissions m) out
unfolding add_routes add_all
add_routes-add_all [] out = refl
add_routes-add_all ((k, p) ∷ m) out = add_routes-add_all m (add p.write (add p.read out))

add_methods-add_all :
    (m : GoMap Bytes) (out : List Bytes) → add_methods m out ≡ add_all (method_permissions m) out
unfolding add_methods add_all
add_methods-add_all [] out = refl
add_methods-add_all ((k, p) ∷ m) out = add_methods-add_all m (add p out)

add_blanket-add_all :
    (ps : List Bytes) (out : List Bytes) → add_blanket ps out ≡ add_all (named_blanket ps) out
unfolding add_blanket add_all
add_blanket-add_all [] out = refl
add_blanket-add_all (p ∷ ps) out = elim (Bool-cases (p == wildcard_action)) [
  | inl star ↦ rw star (add_blanket-add_all ps out)
  | inr named ↦ rw named (add_blanket-add_all ps (add p out))
]

add_all-append : (ps qs out : List Bytes) → add_all (ps ++ qs) out ≡ add_all qs (add_all ps out)
unfolding add_all
add_all-append [] qs out = refl
add_all-append (p ∷ ps) qs out = add_all-append ps qs (add p out)

-- The five loops collect what one loop over the whole table would.
pub collect-add_all : (m : Map) → collect_permissions m ≡ add_all (demanded m) []
unfolding collect_permissions demanded
collect-add_all m = simp (
  add_exact-add_all, add_routes-add_all, add_methods-add_all, add_blanket-add_all, add_all-append,
)
