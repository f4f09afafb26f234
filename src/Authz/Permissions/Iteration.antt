-- ===== src/Authz/Permissions/Iteration.antt =====
-- `DeclaredPermissions` does not depend on the order in which Go iterates over the maps.
use mathlib.Core.List.{Memᴰ}
use mathlib.Core.List.Memᴰ
use mathlib.Core.Path.{subst}
use maintainerd_sdk.Prelude.{
  ◌≡◌, refl, ◌∙◌, ◌≢◌, ◌↔◌, ◌⊎◌, inl, inr, List, [], ◌∷◌, ◌++◌, arith, Bool-cases, elements,
}
use maintainerd_sdk.Text.{Bytes, ◌==◌}
use maintainerd_sdk.Text.Laws.{eq_iff}
use maintainerd_sdk.Text.Maps.{GoMap}
use maintainerd_sdk.Text.Sorting.Canonical.{IsSorted-ext}
use maintainerd_sdk.Authz.Grant.{wildcard_action}
use maintainerd_sdk.Authz.Surface.{Rule, Perms}
use maintainerd_sdk.Authz.Permissions.{Map, declared_permissions}
use maintainerd_sdk.Authz.Permissions.Table.{
  rule_permissions, pair_permissions, method_permissions, named_blanket, demanded,
}
use maintainerd_sdk.Authz.Permissions.Declared.{declared_iff, declared-IsSorted}
use maintainerd_sdk.Authz.Permissions.Drift.{rule_listed, read_listed, write_listed, method_listed}

-- The same entries, in any order.
abbrev pub SameEntries {ℓ} : {A : Type ℓ} → List A → List A → Type ℓ
SameEntries {A} xs ys = (a : A) → Memᴰ a xs ↔ Memᴰ a ys

-- Two tables with the same entries in each part.
pub record IsSameTable (m n : Map) : Type 0 where
  pub exact : SameEntries m.exact n.exact
  pub routes : SameEntries m.routes n.routes
  pub methods : SameEntries m.methods n.methods
  pub operations : SameEntries m.operation_permissions n.operation_permissions
  pub blanket : SameEntries (elements m.blanket_actions) (elements n.blanket_actions)

abbrev Includes {ℓ} : {A : Type ℓ} → List A → List A → Type ℓ
Includes {A} xs ys = (a : A) → Memᴰ a xs → Memᴰ a ys

rule_entry :
    (x : Bytes) (m : GoMap Rule)
    → Memᴰ x (rule_permissions m)
    → (k : Bytes) × (r : Rule) × Memᴰ (k, r) m × (x ≡ r.permission)
rule_entry x [] h = elim h [ ]
rule_entry x ((k, r) ∷ m) (Memᴰ.head e) = (k, r, Memᴰ.head refl, e)
rule_entry x ((k, r) ∷ m) (Memᴰ.tail h) =
    let (j, q, found, e) = rule_entry x m h in (j, q, Memᴰ.tail found, e)

pair_entry :
    (x : Bytes) (m : GoMap Perms)
    → Memᴰ x (pair_permissions m)
    → (k : Bytes) × (p : Perms) × Memᴰ (k, p) m × ((x ≡ p.read) ⊎ (x ≡ p.write))
pair_entry x [] h = elim h [ ]
pair_entry x ((k, p) ∷ m) (Memᴰ.head e) = (k, p, Memᴰ.head refl, inl e)
pair_entry x ((k, p) ∷ m) (Memᴰ.tail (Memᴰ.head e)) = (k, p, Memᴰ.head refl, inr e)
pair_entry x ((k, p) ∷ m) (Memᴰ.tail (Memᴰ.tail h)) =
    let (j, q, found, e) = pair_entry x m h in (j, q, Memᴰ.tail found, e)

method_entry :
    (x : Bytes) (m : GoMap Bytes)
    → Memᴰ x (method_permissions m)
    → (k : Bytes) × (p : Bytes) × Memᴰ (k, p) m × (x ≡ p)
method_entry x [] h = elim h [ ]
method_entry x ((k, p) ∷ m) (Memᴰ.head e) = (k, p, Memᴰ.head refl, e)
method_entry x ((k, p) ∷ m) (Memᴰ.tail h) =
    let (j, q, found, e) = method_entry x m h in (j, q, Memᴰ.tail found, e)

rules_included :
    (m n : GoMap Rule) → Includes m n → Includes (rule_permissions m) (rule_permissions n)
rules_included m n into x h =
    let (k, r, found, e) = rule_entry x m h in Memᴰ.cast e (rule_listed k r n (into (k, r) found))

pairs_included :
    (m n : GoMap Perms) → Includes m n → Includes (pair_permissions m) (pair_permissions n)
pairs_included m n into x h =
    let (k, p, found, either) = pair_entry x m h in
    elim either [
      | inl e ↦ Memᴰ.cast e (read_listed k p n (into (k, p) found))
      | inr e ↦ Memᴰ.cast e (write_listed k p n (into (k, p) found))
    ]

methods_included :
    (m n : GoMap Bytes) → Includes m n → Includes (method_permissions m) (method_permissions n)
methods_included m n into x h =
    let (k, p, found, e) = method_entry x m h in
    Memᴰ.cast e (method_listed k p n (into (k, p) found))

named_sound :
    (x : Bytes) (ps : List Bytes) → Memᴰ x (named_blanket ps) → (x ≢ wildcard_action) × Memᴰ x ps
named_sound x [] h = elim h [ ]
named_sound x (p ∷ ps) h = elim (Bool-cases (p == wildcard_action)) [
  | inl star ↦
      let rest : named_blanket (p ∷ ps) ≡ named_blanket ps = rw star in
      let (named, found) = named_sound x ps (subst (Memᴰ x) rest h) in (named, Memᴰ.tail found)
  | inr plain ↦
      let here : named_blanket (p ∷ ps) ≡ p ∷ named_blanket ps = rw plain in
      elim (Memᴰ.cases_cons (subst (Memᴰ x) here h)) [
        | inl e ↦ (ground (arith, eq_iff p wildcard_action), Memᴰ.head e)
        | inr later ↦ let (named, found) = named_sound x ps later in (named, Memᴰ.tail found)
      ]
]

named_complete :
    (x : Bytes) (ps : List Bytes) → x ≢ wildcard_action → Memᴰ x ps → Memᴰ x (named_blanket ps)
named_complete x [] named h = h
named_complete x (p ∷ ps) named h = elim (Bool-cases (p == wildcard_action)) [
  | inl star ↦ rw star (elim (Memᴰ.cases_cons h) [
    | inl e ↦ absurd (named (e ∙ (eq_iff p wildcard_action).0 star))
    | inr later ↦ named_complete x ps named later
  ])
  | inr plain ↦ rw plain (elim (Memᴰ.cases_cons h) [
    | inl e ↦ Memᴰ.head e
    | inr later ↦ Memᴰ.tail (named_complete x ps named later)
  ])
]

append_included :
    (xs bs cs ds : List Bytes) → Includes xs cs → Includes bs ds → Includes (xs ++ bs) (cs ++ ds)
append_included xs bs cs ds f g x h = elim (Memᴰ.append_cases xs h) [
  | inl left ↦ Memᴰ.append_left ds (f x left)
  | inr right ↦ Memᴰ.append_right cs (g x right)
]

blanket_included :
    (ps qs : List Bytes) → Includes ps qs → Includes (named_blanket ps) (named_blanket qs)
blanket_included ps qs into x h =
    let (named, found) = named_sound x ps h in named_complete x qs named (into x found)

table_included :
    (m n : Map)
    → Includes m.exact n.exact
    → Includes m.routes n.routes
    → Includes m.methods n.methods
    → Includes m.operation_permissions n.operation_permissions
    → Includes (elements m.blanket_actions) (elements n.blanket_actions)
    → Includes (declared_permissions m) (declared_permissions n)
table_included m n exact routes methods operations blanket x h =
    let (filled, found) = (declared_iff m x).0 h in
    (declared_iff n x).1 (
      filled,
      unfold demanded in
          append_included (rule_permissions m.exact) _ _ _ (rules_included m.exact n.exact exact)
            (append_included (pair_permissions m.routes) _ _ _
              (pairs_included m.routes n.routes routes)
              (append_included (method_permissions m.methods) _ _ _
                (methods_included m.methods n.methods methods)
                (append_included m.operation_permissions _ _ _ operations (
                  blanket_included (elements m.blanket_actions) (elements n.blanket_actions)
                    blanket))))
            x found,
    )

-- Two tables that hold the same entries, in whatever order their maps are read, declare the very
-- same list.
pub declared-IsSameTable :
    (m n : Map) → IsSameTable m n → declared_permissions m ≡ declared_permissions n
declared-IsSameTable m n h =
    IsSorted-ext (declared_permissions m) (declared_permissions n) (declared-IsSorted m)
      (declared-IsSorted n)
      (table_included m n (λ a. (h.exact a).0) (λ a. (h.routes a).0) (λ a. (h.methods a).0)
        (λ a. (h.operations a).0) (λ a. (h.blanket a).0))
      (table_included n m (λ a. (h.exact a).1) (λ a. (h.routes a).1) (λ a. (h.methods a).1)
        (λ a. (h.operations a).1) (λ a. (h.blanket a).1))
