-- ===== src/Text/Maps.antt =====
-- Go maps keyed by strings.
pub mod Reordered
use maintainerd_sdk.Prelude.{List, [], ◌∷◌, Option, none, some, if◌then◌else◌}
use maintainerd_sdk.Text.{Bytes, ◌==◌}

-- A Go map by its entries, in the order in which one iteration meets them.
abbrev pub GoMap {ℓ} : Type ℓ → Type ℓ
GoMap V = List (Bytes × V)

unfoldable pub lookup {ℓ} : {V : Type ℓ} → Bytes → GoMap V → Option V
lookup key [] = none
lookup key ((k, v) ∷ m) = if k == key then some v else lookup key m
