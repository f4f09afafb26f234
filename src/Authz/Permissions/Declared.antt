-- ===== src/Authz/Permissions/Declared.antt =====
-- `DeclaredPermissions`: exactly what the table demands, once each, in order, whatever the order in
-- which the maps are read; and whatever rule the guard finds is declared.
use mathlib.Core.List.{Memᴰ}
use mathlib.Core.List.Memᴰ
use mathlib.Core.Path.{subst}
use maintainerd_sdk.Prelude.{
  ◌≡◌, sym, ◌∙◌, ◌≢◌, ◌↔◌, ◌⊎◌, inl, inr, true, List, [], ◌∷◌, ◌++◌, arith, Bool-cases,
}
use maintainerd_sdk.Text.{Bytes, ◌==◌}
use maintainerd_sdk.Text.Laws.{eq_iff}
use maintainerd_sdk.Text.Sorting.Canonical.{
  IsSorted, IsDistinct, mem_of_sort, mem_sort, IsSorted-ext, sort-IsSorted,
}
use maintainerd_sdk.Authz.Principal.{scope_in}
use maintainerd_sdk.Authz.Permissions.{Map, add, add_all, declared_permissions}
use maintainerd_sdk.Authz.Permissions.Table.{demanded, collect-add_all}

pub scope_in_sound : (x : Bytes) (xs : List Bytes) → scope_in x xs ≡ true → Memᴰ x xs
unfolding scope_in
scope_in_sound x [] h = cc
scope_in_sound x (y ∷ ys) h = elim (Bool-cases (y == x)) [
  | inl here ↦ Memᴰ.head (sym ((eq_iff y x).0 here))
  | inr later ↦ Memᴰ.tail (scope_in_sound x ys (ground arith))
]

pub scope_in_complete : (x : Bytes) {xs : List Bytes} → Memᴰ x xs → scope_in x xs ≡ true
unfolding scope_in
scope_in_complete x (Memᴰ.head {x = y} e) = ground (arith, eq_iff y x)
scope_in_complete x (Memᴰ.tail {x = y} m) = ground (arith, scope_in_complete x m)

-- The three ways of the closure `add`.
add_cases :
    (p : Bytes) (out : List Bytes)
    → ((p ≡ []) × (add p out ≡ out))
      ⊎ ((Memᴰ p out × (add p out ≡ out))
          ⊎ ((p ≢ []) × (¬ Memᴰ p out) × (add p out ≡ out ++ p ∷ [])))
add_cases p out = elim (Bool-cases (p == [])) [
  | inl nothing ↦ inl ((eq_iff p []).0 nothing, unfold add in ground arith)
  | inr named ↦ elim (Bool-cases (scope_in p out)) [
    | inl dup ↦ inr (inl (scope_in_sound p out dup, unfold add in ground arith))
    | inr fresh ↦ inr (
        inr (
          ground (arith, eq_iff p []),
          λ m. absurd (ground (arith, scope_in_complete p m)),
          unfold add in ground arith,
        ))
  ]
]

mem_of_add :
    (x p : Bytes) (out : List Bytes) → Memᴰ x (add p out) → Memᴰ x out ⊎ ((x ≢ []) × (x ≡ p))
mem_of_add x p out m = elim (add_cases p out) [
  | inl (nothing, e) ↦ inl (subst (Memᴰ x) e m)
  | inr (inl (dup, e)) ↦ inl (subst (Memᴰ x) e m)
  | inr (inr (named, fresh, e)) ↦ elim (Memᴰ.append_cases out (subst (Memᴰ x) e m)) [
    | inl old ↦ inl old
    | inr new ↦ let f = Memᴰ.eq_of_singleton new in inr (λ g. named (sym f ∙ g), f)
  ]
]

mem_add : (x p : Bytes) (out : List Bytes) → Memᴰ x out ⊎ ((x ≢ []) × (x ≡ p)) → Memᴰ x (add p out)
mem_add x p out h = elim (add_cases p out) [
  | inl (nothing, e) ↦
      rw e (elim h [ inl old ↦ old | inr (filled, f) ↦ absurd (filled (f ∙ nothing)) ])
  | inr (inl (dup, e)) ↦ rw e (elim h [ inl old ↦ old | inr (filled, f) ↦ Memᴰ.cast f dup ])
  | inr (inr (named, fresh, e)) ↦ rw e (elim h [
    | inl old ↦ Memᴰ.append_left (p ∷ []) old
    | inr (filled, f) ↦ Memᴰ.append_right out (Memᴰ.head f)
  ])
]

append-IsDistinct :
    (out : List Bytes) (p : Bytes) → IsDistinct out → (¬ Memᴰ p out) → IsDistinct (out ++ p ∷ [])
append-IsDistinct [] p h fresh = (λ m. elim m [ ], tt)
append-IsDistinct (x ∷ out) p (new, h) fresh = (
  λ m. elim (Memᴰ.append_cases out m) [
    | inl old ↦ new old
    | inr last ↦ fresh (Memᴰ.head (sym (Memᴰ.eq_of_singleton last)))
  ],
  append-IsDistinct out p h (λ m. fresh (Memᴰ.tail m)),
)

add-IsDistinct : (p : Bytes) (out : List Bytes) → IsDistinct out → IsDistinct (add p out)
add-IsDistinct p out h = elim (add_cases p out) [
  | inl (nothing, e) ↦ rw e h
  | inr (inl (dup, e)) ↦ rw e h
  | inr (inr (named, fresh, e)) ↦ rw e (append-IsDistinct out p h fresh)
]

mem_of_add_all :
    (x : Bytes) (ps out : List Bytes)
    → Memᴰ x (add_all ps out)
    → Memᴰ x out ⊎ ((x ≢ []) × Memᴰ x ps)
mem_of_add_all x [] out m = inl (unfold add_all in m)
mem_of_add_all x (p ∷ ps) out m = elim (mem_of_add_all x ps (add p out) (unfold add_all in m)) [
  | inl m' ↦ elim (mem_of_add x p out m') [
    | inl old ↦ inl old
    | inr (filled, f) ↦ inr (filled, Memᴰ.head f)
  ]
  | inr (filled, m') ↦ inr (filled, Memᴰ.tail m')
]

mem_add_all :
    (x : Bytes) (ps out : List Bytes)
    → Memᴰ x out ⊎ ((x ≢ []) × Memᴰ x ps)
    → Memᴰ x (add_all ps out)
unfolding add_all
mem_add_all x [] out (inl old) = old
mem_add_all x [] out (inr (filled, m)) = elim m [ ]
mem_add_all x (p ∷ ps) out (inl old) =
    mem_add_all x ps (add p out) (inl (mem_add x p out (inl old)))
mem_add_all x (p ∷ ps) out (inr (filled, m)) =
    mem_add_all x ps (add p out) (elim (Memᴰ.cases_cons m) [
      | inl f ↦ inl (mem_add x p out (inr (filled, f)))
      | inr m' ↦ inr (filled, m')
    ])

add_all-IsDistinct : (ps out : List Bytes) → IsDistinct out → IsDistinct (add_all ps out)
unfolding add_all
add_all-IsDistinct [] out h = h
add_all-IsDistinct (p ∷ ps) out h = add_all-IsDistinct ps (add p out) (add-IsDistinct p out h)

-- The declared permissions are exactly the texts that the table demands and that are not empty.
pub declared_iff :
    (m : Map) (x : Bytes) → Memᴰ x (declared_permissions m) ↔ ((x ≢ []) × Memᴰ x (demanded m))
unfolding declared_permissions
declared_iff m x = (
  λ h.
      elim (mem_of_add_all x (demanded m) []
        (subst (Memᴰ x) (collect-add_all m) (mem_of_sort x _ h))) [
          | inl old ↦ elim old [ ]
          | inr found ↦ found
        ],
  λ h.
      mem_sort x _
        (subst (Memᴰ x) (sym (collect-add_all m)) (mem_add_all x (demanded m) [] (inr h))),
)

-- The declared permissions stand in strictly ascending order: sorted, and none of them twice.
pub declared-IsSorted : (m : Map) → IsSorted (declared_permissions m)
unfolding declared_permissions
declared-IsSorted m =
    sort-IsSorted _
      (subst IsDistinct (sym (collect-add_all m)) (add_all-IsDistinct (demanded m) [] tt))

-- A list that ascends strictly and holds the texts that the table demands, less the empty one.
pub record IsListing (m : Map) (ps : List Bytes) : Type 0 where
  pub ascends : IsSorted ps
  pub lists : (x : Bytes) → Memᴰ x ps ↔ ((x ≢ []) × Memᴰ x (demanded m))

-- `DeclaredPermissions` returns the one list that ascends strictly and holds exactly the non-empty
-- texts that stand as permissions in the rules, the routes, the methods, the operations and the
-- blanket actions of the table, the wildcard among the blanket actions excepted.
pub declared-IsListing_iff :
    (m : Map) (ps : List Bytes) → (declared_permissions m ≡ ps) ↔ IsListing m ps
declared-IsListing_iff m ps = (
  λ e. subst (IsListing m) e (record { ascends = declared-IsSorted m; lists = declared_iff m }),
  λ h.
      IsSorted-ext (declared_permissions m) ps (declared-IsSorted m) h.ascends
        (λ x k. (h.lists x).1 ((declared_iff m x).0 k))
        (λ x k. (declared_iff m x).1 ((h.lists x).0 k)),
)
