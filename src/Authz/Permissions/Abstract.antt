-- ===== src/Authz/Permissions/Abstract.antt =====
-- The permission table as the object that its Go maps make, whatever order they are listed in.
use mathlib.Core.HLevel.{Π_prop}
use mathlib.Core.List.{Memᴰ}
use mathlib.Core.Path.{subst}
use mathlib.Core.Quot
use mathlib.Core.Quot.{Quot}
use native.Mathlib.Nat.{ℕ_set}
use maintainerd_sdk.Prelude.{
  ◌≡◌, refl, sym, ap, ◌≢◌, ◌↔◌, elements, true, [], some, Bool, List, Option,
}
use maintainerd_sdk.Text.{Bytes, Unicode}
use maintainerd_sdk.Authz.Principal.{scope_in}
use maintainerd_sdk.Authz.Surface.{Surface, Rule}
use maintainerd_sdk.Authz.Permissions.{Map, resolve, declared_permissions}
use maintainerd_sdk.Authz.Permissions.Declared.{scope_in_complete}
use maintainerd_sdk.Authz.Permissions.Drift.{resolve-declared}
use maintainerd_sdk.Authz.Permissions.Iteration.{IsSameTable, declared-IsSameTable}
use maintainerd_sdk.Authz.Permissions.Reordered.{IsSameMap, resolve-IsSameMap}

-- Two listings of the same maps are one table.
abbrev pub Table : Type 0
Table = Quot IsSameMap

permissions-set : IsSet (List Bytes)
permissions-set = hlevel ℕ_set

Rule-set : IsSet (Option Rule)
Rule-set = hlevel ℕ_set

flag-set : IsSet Bool
flag-set = hlevel

same_list : {xs ys : List Bytes} → xs ≡ ys → (x : Bytes) → Memᴰ x xs ↔ Memᴰ x ys
same_list e x = (λ h. subst (Memᴰ x) e h, λ h. subst (Memᴰ x) (sym e) h)

entries_of : (m n : Map) → IsSameMap m n → IsSameTable m n
entries_of m n h = record {
  exact = h.exact.same;
  routes = h.routes.same;
  methods = h.methods.same;
  operations = same_list h.operations;
  blanket = same_list (ap (λ b. elements b) h.blanket);
}

pub declares : Table → List Bytes
declares =
    Quot.lift permissions-set declared_permissions
      (λ m n h. declared-IsSameTable m n (entries_of m n h))

module _ ⦃u : Unicode⦄ where
  pub demand : Table → Surface → Option Rule
  demand t s = Quot.lift Rule-set (λ m. resolve m s) (λ m n h. resolve-IsSameMap m n s h) t

  pub demand-mk : (m : Map) (s : Surface) → demand (Quot.mk m) s ≡ resolve m s
  unfolding demand
  demand-mk m s = refl

  -- A permission table, taken with the order of its Go maps forgotten, declares whatever permission
  -- it demands of a surface, unless that is empty.
  pub demand-declares :
      (t : Table) (s : Surface) (rule : Rule)
      → demand t s ≡ some rule
      → rule.permission ≢ []
      → scope_in rule.permission (declares t) ≡ true
  unfolding demand declares
  demand-declares t s rule =
      Quot.ind
        (λ (t : Table). Π_prop (λ (h : demand t s ≡ some rule).
          Π_prop (λ (named : rule.permission ≢ []).
            flag-set (scope_in rule.permission (declares t)) true)))
        (λ m h named. scope_in_complete rule.permission (resolve-declared m s rule h named)) t
