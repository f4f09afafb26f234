-- ===== src/Authz/Permissions/Drift.antt =====
-- Registration cannot drift from enforcement: what `Resolve` demands is declared, and the declared
-- list is the same however the maps are iterated.
use mathlib.Core.List.{Memᴰ}
use mathlib.Core.List.Memᴰ
use maintainerd_sdk.Prelude.{
  ◌≡◌, ap, ◌∙◌, ◌≢◌, inl, inr, [], ◌∷◌, some, arith, Bool-cases, Option-cases,
}
use maintainerd_sdk.Text.{Bytes, Unicode}
use maintainerd_sdk.Text.Maps.Reordered.{mem_of_lookup}
use maintainerd_sdk.Text.Maps.{GoMap, lookup}
use maintainerd_sdk.Authz.Surface.{Surface, Rule, Perms, is_grpc, exact_key}
use maintainerd_sdk.Authz.Permissions.{
  Map, is_read, find_route_key, resolve_method, resolve_route, resolve, declared_permissions,
}
use maintainerd_sdk.Authz.Permissions.Table.{
  rule_permissions, pair_permissions, method_permissions, demanded,
}
use maintainerd_sdk.Authz.Permissions.Declared.{declared_iff}

pub rule_listed :
    (k : Bytes) (r : Rule) (m : GoMap Rule) → Memᴰ (k, r) m → Memᴰ r.permission (rule_permissions m)
rule_listed k r [] h = elim h [ ]
rule_listed k r ((j, q) ∷ m) (Memᴰ.head e) = Memᴰ.head (ap (λ t. t.1.permission) e)
rule_listed k r ((j, q) ∷ m) (Memᴰ.tail h) = Memᴰ.tail (rule_listed k r m h)

pub read_listed :
    (k : Bytes) (p : Perms) (m : GoMap Perms) → Memᴰ (k, p) m → Memᴰ p.read (pair_permissions m)
read_listed k p [] h = elim h [ ]
read_listed k p ((j, q) ∷ m) (Memᴰ.head e) = Memᴰ.head (ap (λ t. t.1.read) e)
read_listed k p ((j, q) ∷ m) (Memᴰ.tail h) = Memᴰ.tail (Memᴰ.tail (read_listed k p m h))

pub write_listed :
    (k : Bytes) (p : Perms) (m : GoMap Perms) → Memᴰ (k, p) m → Memᴰ p.write (pair_permissions m)
write_listed k p [] h = elim h [ ]
write_listed k p ((j, q) ∷ m) (Memᴰ.head e) = Memᴰ.tail (Memᴰ.head (ap (λ t. t.1.write) e))
write_listed k p ((j, q) ∷ m) (Memᴰ.tail h) = Memᴰ.tail (Memᴰ.tail (write_listed k p m h))

pub method_listed : (k p : Bytes) (m : GoMap Bytes) → Memᴰ (k, p) m → Memᴰ p (method_permissions m)
method_listed k p [] h = elim h [ ]
method_listed k p ((j, q) ∷ m) (Memᴰ.head e) = Memᴰ.head (ap (λ t. t.1) e)
method_listed k p ((j, q) ∷ m) (Memᴰ.tail h) = Memᴰ.tail (method_listed k p m h)

method_demanded :
    (m : Map) (full_method : Bytes) (rule : Rule)
    → resolve_method m full_method ≡ some rule
    → Memᴰ rule.permission (demanded m)
unfolding demanded
method_demanded m full_method rule h = elim (Option-cases (lookup full_method m.methods)) [
  | inl missing ↦ absurd (unfold resolve_method in ground arith)
  | inr (p, found) ↦
      let same : rule.permission ≡ p = unfold resolve_method in ground arith in
      Memᴰ.append_right (rule_permissions m.exact) (
        Memᴰ.append_right (pair_permissions m.routes) (
          Memᴰ.append_left _ (
            Memᴰ.cast same (
              method_listed full_method p m.methods
                (mem_of_lookup full_method m.methods p found)))))
]

route_demanded :
    (m : Map) (s : Surface) (rule : Rule)
    → resolve_route m s ≡ some rule
    → Memᴰ rule.permission (demanded m)
unfolding demanded
route_demanded m s rule h = elim (Option-cases (lookup (find_route_key m s) m.routes)) [
  | inl missing ↦ absurd (unfold resolve_route in ground arith)
  | inr (p, found) ↦
      let listed = mem_of_lookup (find_route_key m s) m.routes p found in
      let either : Memᴰ rule.permission (pair_permissions m.routes) =
        elim (Bool-cases (is_read s.http_method)) [
          | inl reads ↦
              let same : rule.permission ≡ p.read = unfold resolve_route in ground arith in
              Memᴰ.cast same (read_listed (find_route_key m s) p m.routes listed)
          | inr writes ↦
              let same : rule.permission ≡ p.write = unfold resolve_route in ground arith in
              Memᴰ.cast same (write_listed (find_route_key m s) p m.routes listed)
        ] in
      Memᴰ.append_right (rule_permissions m.exact) (Memᴰ.append_left _ either)
]

module _ ⦃u : Unicode⦄ where
  exact_demanded :
      (m : Map) (s : Surface) (r rule : Rule)
      → lookup (exact_key s.http_method s.path) m.exact ≡ some r
      → r ≡ rule
      → Memᴰ rule.permission (demanded m)
  unfolding demanded
  exact_demanded m s r rule found same = Memᴰ.append_left _ (
      rule_listed (exact_key s.http_method s.path) rule m.exact
        (mem_of_lookup (exact_key s.http_method s.path) m.exact rule (found ∙ ap some same)))

  resolve_demanded :
      (m : Map) (s : Surface) (rule : Rule)
      → resolve m s ≡ some rule
      → Memᴰ rule.permission (demanded m)
  resolve_demanded m s rule h = elim (Bool-cases (is_grpc s)) [
    | inl grpc ↦ method_demanded m s.full_method rule (unfold resolve in ground arith)
    | inr http ↦ elim (Option-cases (lookup (exact_key s.http_method s.path) m.exact)) [
      | inl missing ↦ route_demanded m s rule (unfold resolve in ground arith)
      | inr (r, found) ↦ exact_demanded m s r rule found (unfold resolve in ground arith)
    ]
  ]

  -- Whatever permission the guard demands of a surface is among the declared ones, unless the rule
  -- demands none.
  pub resolve-declared :
      (m : Map) (s : Surface) (rule : Rule)
      → resolve m s ≡ some rule
      → rule.permission ≢ []
      → Memᴰ rule.permission (declared_permissions m)
  resolve-declared m s rule h named =
      (declared_iff m rule.permission).1 (named, resolve_demanded m s rule h)
