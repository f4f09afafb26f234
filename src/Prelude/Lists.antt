-- ===== src/Prelude/Lists.antt =====
-- Lists measured by native numbers, under the library's names, and predicates on all elements.
use Prim.Native.Nat.{ℕ, zero, suc, ◌+◌}
use mathlib.Core.Path.{◌≡◌, refl, sym, ap}
use mathlib.Core.Logic.{◌⊎◌, inl, inr}
use mathlib.Core.Option.{Option, none, some}
use mathlib.Core.List.{Memᴰ, map, List, [], ◌∷◌, ◌++◌, head-eq_of_cons-eq, tail-eq_of_cons-eq}
use native.Mathlib.Omega.{arith}

module _ {ℓ} {A : Type ℓ} where
  abbrev pub length : List A → ℕ
  length [] = 0
  length (x ∷ xs) = suc (length xs)

  abbrev pub get_or : List A → ℕ → A → A
  get_or [] i d = d
  get_or (x ∷ xs) zero d = x
  get_or (x ∷ xs) (suc i) d = get_or xs i d

  abbrev pub take : ℕ → List A → List A
  take zero xs = []
  take (suc n) [] = []
  take (suc n) (x ∷ xs) = x ∷ take n xs

  abbrev pub drop : ℕ → List A → List A
  drop zero xs = xs
  drop (suc n) [] = []
  drop (suc n) (x ∷ xs) = drop n xs

  pub length-append : (xs ys : List A) → length (xs ++ ys) ≡ length xs + length ys
  length-append [] ys = omega arith
  length-append (x ∷ xs) ys = omega (arith, length-append xs ys)

  pub take-append-drop : (n : ℕ) (xs : List A) → take n xs ++ drop n xs ≡ xs
  take-append-drop zero xs = refl
  take-append-drop (suc n) [] = refl
  take-append-drop (suc n) (x ∷ xs) = rw (take-append-drop n xs)

  pub drop-append_length : (xs ys : List A) → drop (length xs) (xs ++ ys) ≡ ys
  drop-append_length [] ys = refl
  drop-append_length (x ∷ xs) ys = drop-append_length xs ys

  -- A text with a last element, cut in two: the second part is empty, or has that last element.
  pub append_last_cases :
      (xs ys zs : List A) (x : A)
      → xs ++ x ∷ [] ≡ ys ++ zs
      → ((zs ≡ []) × (xs ++ x ∷ [] ≡ ys)) ⊎ ((ws : List A) × (zs ≡ ws ++ x ∷ []) × (xs ≡ ys ++ ws))
  append_last_cases xs [] zs x h = inr (xs, sym h, refl)
  append_last_cases [] (y ∷ []) zs x h = inl (ground arith, ground arith)
  append_last_cases [] (y ∷ z ∷ ys) zs x h = absurd (ground arith)
  append_last_cases (a ∷ xs) (y ∷ ys) zs x h =
      let rest : xs ++ x ∷ [] ≡ ys ++ zs = tail-eq_of_cons-eq h in
      let same : a ≡ y = head-eq_of_cons-eq h in
      elim (append_last_cases xs ys zs x rest) [
        | inl (empty, e) ↦ inl (empty, λ i. same i ∷ e i)
        | inr (ws, last, e) ↦ inr (ws, last, λ i. same i ∷ e i)
      ]

  pub take-append_length : (xs ys : List A) → take (length xs) (xs ++ ys) ≡ xs
  take-append_length [] ys = refl
  take-append_length (x ∷ xs) ys = ap (◌∷◌ x) (take-append_length xs ys)

module _ {ℓ κ} {A : Type ℓ} (P : A → Type κ) where
  abbrev pub All : List A → Type κ
  All [] = Unit
  All (x ∷ xs) = P x × All xs

  pub All-append : (xs ys : List A) → All xs → All ys → All (xs ++ ys)
  All-append [] ys _ hy = hy
  All-append (x ∷ xs) ys (px, hx) hy = (px, All-append xs ys hx hy)

  pub All-left : (xs ys : List A) → All (xs ++ ys) → All xs
  All-left [] ys h = tt
  All-left (x ∷ xs) ys (px, h) = (px, All-left xs ys h)

  pub All-right : (xs ys : List A) → All (xs ++ ys) → All ys
  All-right [] ys h = h
  All-right (x ∷ xs) ys (px, h) = All-right xs ys h

pub All-imp {ℓ κ μ} :
    {A : Type ℓ} (P : A → Type κ) (Q : A → Type μ)
    → ((x : A) → P x → Q x)
    → (xs : List A) → All P xs
    → All Q xs
All-imp P Q f [] h = tt
All-imp P Q f (x ∷ xs) (p, h) = (f x p, All-imp P Q f xs h)

-- A Go slice: nil, or a list of elements, which may be empty.
abbrev pub Slice {ℓ} : Type ℓ → Type ℓ
Slice A = Option (List A)

abbrev pub elements {ℓ} : {A : Type ℓ} → Slice A → List A
elements none = []
elements (some xs) = xs

-- What stands in the image of a list is the image of what stands in the list.
pub Memᴰ-map {ℓ ℓ'} :
    {A : Type ℓ} {B : Type ℓ'} (f : A → B) (b : B) (l : List A)
    → Memᴰ b (map f l)
    → (a : A) × Memᴰ a l × (f a ≡ b)
Memᴰ-map f b [] h = elim h [ ]
Memᴰ-map f b (a ∷ l) (Memᴰ.head h) = (a, Memᴰ.head refl, sym h)
Memᴰ-map f b (a ∷ l) (Memᴰ.tail m) = let (d, at, same) = Memᴰ-map f b l m in (d, Memᴰ.tail at, same)
