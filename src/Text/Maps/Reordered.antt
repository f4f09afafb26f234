-- ===== src/Text/Maps/Reordered.antt =====
-- A Go map does not depend on the order in which an iteration meets its entries.
use mathlib.Core.List.{Memᴰ}
use mathlib.Core.Path.{subst}
use maintainerd_sdk.Prelude.{
  ◌≡◌, sym, ap, ◌∙◌, ◌↔◌, inl, inr, true, [], ◌∷◌, some, arith, Bool-cases, Option-cases,
}
use maintainerd_sdk.Text.{Bytes, ◌==◌}
use maintainerd_sdk.Text.Laws.{eq_iff}
use maintainerd_sdk.Text.Maps.{GoMap, lookup}

module _ {ℓ} {V : Type ℓ} where
  -- No key stands twice.
  abbrev pub IsKeyed : GoMap V → Type ℓ
  IsKeyed [] = Unit
  IsKeyed ((k, v) ∷ m) = ((w : V) → ¬ Memᴰ (k, w) m) × IsKeyed m

  -- Two ways to list the entries of one map.
  pub record IsReordered (m n : GoMap V) : Type ℓ where
    pub left : IsKeyed m
    pub right : IsKeyed n
    pub same : (e : Bytes × V) → Memᴰ e m ↔ Memᴰ e n

  -- An entry that is found stands in the map.
  pub mem_of_lookup : (key : Bytes) (m : GoMap V) (v : V) → lookup key m ≡ some v → Memᴰ (key, v) m
  unfolding lookup
  mem_of_lookup key [] v h = absurd (ground arith)
  mem_of_lookup key ((k, w) ∷ m) v h = elim (Bool-cases (k == key)) [
    | inl here ↦ Memᴰ.head (ground (arith, eq_iff k key))
    | inr later ↦ Memᴰ.tail (mem_of_lookup key m v (ground arith))
  ]

  lookup_of_mem :
      (k : Bytes) (v : V) (m : GoMap V) → IsKeyed m → Memᴰ (k, v) m → lookup k m ≡ some v
  unfolding lookup
  lookup_of_mem k v [] keyed h = elim h [ ]
  lookup_of_mem k v ((j, w) ∷ m) (new, keyed) (Memᴰ.head e) =
      let there : (j == k) ≡ true = (eq_iff j k).1 (ap (λ (p : Bytes × V). p.0) (sym e)) in
      rw there (ap (λ (p : Bytes × V). some p.1) (sym e))
  lookup_of_mem k v ((j, w) ∷ m) (new, keyed) (Memᴰ.tail t) = elim (Bool-cases (j == k)) [
    | inl same ↦ absurd (new v (subst (λ t. Memᴰ (t, v) m) (sym ((eq_iff j k).0 same)) t))
    | inr other ↦ rw other (lookup_of_mem k v m keyed t)
  ]

  pub lookup-IsReordered : (k : Bytes) (m n : GoMap V) → IsReordered m n → lookup k m ≡ lookup k n
  lookup-IsReordered k m n r = elim (Option-cases (lookup k m)) [
    | inr (v, found) ↦
        found ∙ sym (lookup_of_mem k v n r.right ((r.same (k, v)).0 (mem_of_lookup k m v found)))
    | inl missed ↦ elim (Option-cases (lookup k n)) [
      | inl missed' ↦ missed ∙ sym missed'
      | inr (v, found) ↦
          let at = lookup_of_mem k v m r.left ((r.same (k, v)).1 (mem_of_lookup k n v found)) in
          absurd (ground arith)
    ]
  ]
