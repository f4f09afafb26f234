-- ===== src/Text/Sorting/Canonical.antt =====
-- The sorted list of distinct strings depends on nothing but which strings there are.
use mathlib.Core.List.{Memᴰ}
use mathlib.Core.Path.{subst, ap₂}
use maintainerd_sdk.Prelude.{
  ◌≡◌, refl, sym, ◌∙◌, ◌≢◌, ◌⊎◌, inl, inr, true, false, List, [], ◌∷◌, arith, Bool-cases,
}
use maintainerd_sdk.Text.{Bytes}
use maintainerd_sdk.Text.Sorting.{str_leb, insert_sorted, sort_strings}
use maintainerd_sdk.Text.Sorting.Order.{str_leb_antisymm, str_leb_trans, str_leb_total}

abbrev pub IsBelow : Bytes → Bytes → Type 0
IsBelow s t = (str_leb s t ≡ true) × (s ≢ t)

-- Strictly ascending.
abbrev pub IsSorted : List Bytes → Type 0
IsSorted [] = Unit
IsSorted (x ∷ xs) = ((y : Bytes) → Memᴰ y xs → IsBelow x y) × IsSorted xs

abbrev pub IsDistinct : List Bytes → Type 0
IsDistinct [] = Unit
IsDistinct (x ∷ xs) = (¬ Memᴰ x xs) × IsDistinct xs

mem_cases : (x y : Bytes) (ys : List Bytes) → Memᴰ x (y ∷ ys) → (x ≡ y) ⊎ Memᴰ x ys
mem_cases x y ys (Memᴰ.head e) = inl e
mem_cases x y ys (Memᴰ.tail m) = inr m

-- `insert_sorted` goes before `q` or behind it.
insert_before :
    (p q : Bytes) (qs : List Bytes) → str_leb p q ≡ true → insert_sorted p (q ∷ qs) ≡ p ∷ q ∷ qs
unfolding insert_sorted
insert_before p q qs h = ground arith

insert_behind :
    (p q : Bytes) (qs : List Bytes)
    → str_leb p q ≡ false
    → insert_sorted p (q ∷ qs) ≡ q ∷ insert_sorted p qs
unfolding insert_sorted
insert_behind p q qs h = ground arith

mem_of_insert : (x p : Bytes) (qs : List Bytes) → Memᴰ x (insert_sorted p qs) → (x ≡ p) ⊎ Memᴰ x qs
mem_of_insert x p [] m = mem_cases x p [] (unfold insert_sorted in m)
mem_of_insert x p (q ∷ qs) m = elim (Bool-cases (str_leb p q)) [
  | inl before ↦ mem_cases x p (q ∷ qs) (subst (Memᴰ x) (insert_before p q qs before) m)
  | inr behind ↦
      elim (mem_cases x q (insert_sorted p qs) (subst (Memᴰ x) (insert_behind p q qs behind) m)) [
        | inl here ↦ inr (Memᴰ.head here)
        | inr later ↦ elim (mem_of_insert x p qs later) [
          | inl e ↦ inl e
          | inr m' ↦ inr (Memᴰ.tail m')
        ]
      ]
]

cons_of_cases : (x y : Bytes) (ys : List Bytes) → (x ≡ y) ⊎ Memᴰ x ys → Memᴰ x (y ∷ ys)
cons_of_cases x y ys (inl e) = Memᴰ.head e
cons_of_cases x y ys (inr m) = Memᴰ.tail m

mem_insert : (x p : Bytes) (qs : List Bytes) → (x ≡ p) ⊎ Memᴰ x qs → Memᴰ x (insert_sorted p qs)
mem_insert x p [] (inl e) = unfold insert_sorted in Memᴰ.head e
mem_insert x p [] (inr m) = elim m [ ]
mem_insert x p (q ∷ qs) h = elim (Bool-cases (str_leb p q)) [
  | inl before ↦ rw (insert_before p q qs before) (cons_of_cases x p (q ∷ qs) h)
  | inr behind ↦ rw (insert_behind p q qs behind) (elim h [
    | inl e ↦ Memᴰ.tail (mem_insert x p qs (inl e))
    | inr m ↦ elim (mem_cases x q qs m) [
      | inl e ↦ Memᴰ.head e
      | inr m' ↦ Memᴰ.tail (mem_insert x p qs (inr m'))
    ]
  ])
]

insert-IsSorted :
    (p : Bytes) (qs : List Bytes) → (¬ Memᴰ p qs) → IsSorted qs → IsSorted (insert_sorted p qs)
insert-IsSorted p [] fresh h = unfold insert_sorted in (λ y m. elim m [ ], tt)
insert-IsSorted p (q ∷ qs) fresh (least, h) = elim (Bool-cases (str_leb p q)) [
  | inl before ↦ rw (insert_before p q qs before) (
    λ y m. elim (mem_cases y q qs m) [
      | inl e ↦ rw e (before, λ f. fresh (Memᴰ.head f))
      | inr m' ↦ (
        str_leb_trans p q y before (least y m').0,
        λ f. fresh (Memᴰ.tail (subst (λ z. Memᴰ z qs) (sym f) m')),
      )
    ],
    (least, h),
  )
  | inr behind ↦
      let after : IsBelow q p = (str_leb_total p q behind, λ f. fresh (Memᴰ.head (sym f))) in
      rw (insert_behind p q qs behind) (
        λ y m. elim (mem_of_insert y p qs m) [ inl e ↦ rw e after | inr m' ↦ least y m' ],
        insert-IsSorted p qs (λ m. fresh (Memᴰ.tail m)) h,
      )
]

pub mem_of_sort : (x : Bytes) (ps : List Bytes) → Memᴰ x (sort_strings ps) → Memᴰ x ps
mem_of_sort x [] m = unfold sort_strings in m
mem_of_sort x (p ∷ ps) m = elim (mem_of_insert x p (sort_strings ps) (unfold sort_strings in m)) [
  | inl e ↦ Memᴰ.head e
  | inr m' ↦ Memᴰ.tail (mem_of_sort x ps m')
]

pub mem_sort : (x : Bytes) (ps : List Bytes) → Memᴰ x ps → Memᴰ x (sort_strings ps)
unfolding sort_strings
mem_sort x [] m = m
mem_sort x (p ∷ ps) m =
    mem_insert x p (sort_strings ps)
      (elim (mem_cases x p ps m) [ inl e ↦ inl e | inr m' ↦ inr (mem_sort x ps m') ])

-- Sorting distinct strings gives a strictly ascending list.
pub sort-IsSorted : (ps : List Bytes) → IsDistinct ps → IsSorted (sort_strings ps)
unfolding sort_strings
sort-IsSorted [] h = tt
sort-IsSorted (p ∷ ps) (fresh, h) =
    insert-IsSorted p (sort_strings ps) (λ m. fresh (mem_of_sort p ps m)) (sort-IsSorted ps h)

not_below_both : (x y : Bytes) → IsBelow x y → IsBelow y x → ⊥
not_below_both x y h k = h.1 (str_leb_antisymm x y h.0 k.0)

same_heads :
    (x y : Bytes) (xs ys : List Bytes)
    → ((z : Bytes) → Memᴰ z xs → IsBelow x z)
    → ((z : Bytes) → Memᴰ z ys → IsBelow y z)
    → Memᴰ x (y ∷ ys)
    → Memᴰ y (x ∷ xs)
    → x ≡ y
same_heads x y xs ys least_x least_y mx my = elim (mem_cases x y ys mx) [
  | inl e ↦ e
  | inr mx' ↦ elim (mem_cases y x xs my) [
    | inl e ↦ sym e
    | inr my' ↦ absurd (not_below_both x y (least_x y my') (least_y x mx'))
  ]
]

tail_members :
    (x y : Bytes) (xs ys : List Bytes)
    → x ≡ y
    → ((z : Bytes) → Memᴰ z xs → IsBelow x z)
    → ((z : Bytes) → Memᴰ z (x ∷ xs) → Memᴰ z (y ∷ ys))
    → (z : Bytes) → Memᴰ z xs
    → Memᴰ z ys
tail_members x y xs ys e least into z m = elim (mem_cases z y ys (into z (Memᴰ.tail m))) [
  | inl f ↦ absurd ((least z m).1 (e ∙ sym f))
  | inr m' ↦ m'
]

-- Two strictly ascending lists of the same strings are equal.
pub IsSorted-ext :
    (xs ys : List Bytes)
    → IsSorted xs
    → IsSorted ys
    → ((z : Bytes) → Memᴰ z xs → Memᴰ z ys)
    → ((z : Bytes) → Memᴰ z ys → Memᴰ z xs)
    → xs ≡ ys
IsSorted-ext [] [] h k into back = refl
IsSorted-ext [] (y ∷ ys) h k into back = elim (back y (Memᴰ.head refl)) [ ]
IsSorted-ext (x ∷ xs) [] h k into back = elim (into x (Memᴰ.head refl)) [ ]
IsSorted-ext (x ∷ xs) (y ∷ ys) (least_x, h) (least_y, k) into back =
    let e : x ≡ y =
      same_heads x y xs ys least_x least_y (into x (Memᴰ.head refl)) (back y (Memᴰ.head refl)) in
    ap₂ ◌∷◌ e (
      IsSorted-ext xs ys h k (tail_members x y xs ys e least_x into)
        (tail_members y x ys xs (sym e) least_y back))
