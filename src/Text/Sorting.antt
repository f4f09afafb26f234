-- ===== src/Text/Sorting.antt =====
-- `sort.Strings`: the order of strings by their bytes, and the sorted list of given strings.
pub mod Order
pub mod Canonical
use maintainerd_sdk.Prelude.{
  Bool, true, false, ◌||◌, ◌&&◌, List, [], ◌∷◌, ltb, byte_eq, if◌then◌else◌,
}
use maintainerd_sdk.Text.{Bytes}

-- Go's `s <= t`.
unfoldable pub str_leb : Bytes → Bytes → Bool
str_leb [] t = true
str_leb (c ∷ s) [] = false
str_leb (c ∷ s) (d ∷ t) = ltb c d || byte_eq c d && str_leb s t

unfoldable pub insert_sorted : Bytes → List Bytes → List Bytes
insert_sorted p [] = p ∷ []
insert_sorted p (q ∷ qs) = if str_leb p q then p ∷ q ∷ qs else q ∷ insert_sorted p qs

unfoldable pub sort_strings : List Bytes → List Bytes
sort_strings [] = []
sort_strings (p ∷ ps) = insert_sorted p (sort_strings ps)
