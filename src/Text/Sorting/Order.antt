-- ===== src/Text/Sorting/Order.antt =====
-- The order of strings is a decidable linear order.
use maintainerd_sdk.Prelude.{◌≡◌, refl, true, false, [], ◌∷◌, arith}
use maintainerd_sdk.Text.{Bytes}
use maintainerd_sdk.Text.Sorting.{str_leb}

pub str_leb_antisymm : (s t : Bytes) → str_leb s t ≡ true → str_leb t s ≡ true → s ≡ t
unfolding str_leb
str_leb_antisymm [] [] h k = refl
str_leb_antisymm [] (d ∷ t) h k = cc
str_leb_antisymm (c ∷ s) [] h k = cc
str_leb_antisymm (c ∷ s) (d ∷ t) h k = ground (arith, str_leb_antisymm s t)

pub str_leb_trans : (s t u : Bytes) → str_leb s t ≡ true → str_leb t u ≡ true → str_leb s u ≡ true
unfolding str_leb
str_leb_trans [] t u h k = refl
str_leb_trans (c ∷ s) [] u h k = cc
str_leb_trans (c ∷ s) (d ∷ t) [] h k = cc
str_leb_trans (c ∷ s) (d ∷ t) (e ∷ u) h k = ground (arith, str_leb_trans s t u)

pub str_leb_total : (s t : Bytes) → str_leb s t ≡ false → str_leb t s ≡ true
unfolding str_leb
str_leb_total [] t h = cc
str_leb_total (c ∷ s) [] h = refl
str_leb_total (c ∷ s) (d ∷ t) h = ground (arith, str_leb_total s t)
