-- ===== src/Text/Search.antt =====
-- Cutting and splitting a text at a separator of one byte.
use maintainerd_sdk.Prelude.{
  ℕ, ◌≡◌, [], ◌∷◌, ◌++◌, refl, some, none, ◌↔◌, arith, Option-cases, inl, inr,
}
use maintainerd_sdk.Text.{Bytes, cut}
use maintainerd_sdk.Text.Laws.{Lacks}

pub cut-append : (sep : ℕ) (a b : Bytes) → Lacks sep a → cut sep (a ++ sep ∷ b) ≡ some (a, b)
unfolding cut
cut-append sep [] b h = ground arith
cut-append sep (c ∷ a) b h = ground (arith, cut-append sep a b)

-- What `cut` returns spells the text again, and its first part lacks the separator.
pub cut_sound :
    (sep : ℕ) (s a b : Bytes) → cut sep s ≡ some (a, b) → (s ≡ a ++ sep ∷ b) × Lacks sep a
unfolding cut
cut_sound sep [] a b h = cc
cut_sound sep (c ∷ s) a b h = elim (Option-cases (cut sep s)) [
  | inl missed ↦ ground arith
  | inr (parts, found) ↦ ground (arith, cut_sound sep s parts.0 parts.1)
]

-- Nothing is cut exactly if the text lacks the separator.
pub cut-none_iff : (sep : ℕ) (s : Bytes) → (cut sep s ≡ none) ↔ Lacks sep s
unfolding cut
cut-none_iff sep [] = (λ h. tt, λ h. refl)
cut-none_iff sep (c ∷ s) = elim (Option-cases (cut sep s)) [
  | inl missed ↦ ground (arith, cut-none_iff sep s)
  | inr (parts, found) ↦ ground (arith, cut-none_iff sep s)
]
