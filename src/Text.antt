-- ===== src/Text.antt =====
-- Go strings as lists of bytes, with the functions of package `strings` that the sources call.
-- A literal is `codes "…"`: its code points are its bytes, since every literal here is ASCII.
pub mod Laws
pub mod Search
pub mod Maps
pub mod Sorting
pub mod Space
pub mod Utf8
use Prim.Native.Char.{code}
use maintainerd_sdk.Prelude.{
  ℕ, zero, suc, ◌+◌, ◌-◌, String, Bool, true, false, not, ◌&&◌, ◌||◌, List, [], ◌∷◌, ◌++◌, map,
  Option, none, some, byte_eq, leb, if◌then◌else◌, length, take, drop,
}

abbrev pub Bytes : Type 0
Bytes = List ℕ

abbrev pub codes : String → Bytes
codes String.[] = []
codes (String.◌∷◌ c s) = code c ∷ codes s

-- `==` on strings.
infix 50 ◌==◌
unfoldable pub ◌==◌ : Bytes → Bytes → Bool
[] == [] = true
(c ∷ s) == (d ∷ t) = byte_eq c d && s == t
[] == (d ∷ t) = false
(c ∷ s) == [] = false

abbrev pub is_empty : Bytes → Bool
is_empty [] = true
is_empty (c ∷ s) = false

-- `strings.HasPrefix(s, prefix)`
unfoldable pub has_prefix : Bytes → Bytes → Bool
has_prefix s [] = true
has_prefix [] (d ∷ p) = false
has_prefix (c ∷ s) (d ∷ p) = byte_eq c d && has_prefix s p

-- `strings.HasSuffix(s, suffix)`
unfoldable pub has_suffix : Bytes → Bytes → Bool
has_suffix s p = leb (length p) (length s) && drop (length s - length p) s == p

-- `strings.TrimPrefix(s, prefix)`
unfoldable pub trim_prefix : Bytes → Bytes → Bytes
trim_prefix s p = if has_prefix s p then drop (length p) s else s

-- `strings.TrimSuffix(s, suffix)`
unfoldable pub trim_suffix : Bytes → Bytes → Bytes
trim_suffix s p = if has_suffix s p then take (length s - length p) s else s

-- `strings.ContainsRune(s, c)` for a rune `c` below 0x80.
unfoldable pub contains_rune : Bytes → ℕ → Bool
contains_rune [] c = false
contains_rune (d ∷ s) c = byte_eq d c || contains_rune s c

-- `strings.Count(s, c)` for a text of one byte.
unfoldable pub count_byte : Bytes → ℕ → ℕ
count_byte [] c = 0
count_byte (d ∷ s) c = let rest = count_byte s c in if byte_eq d c then suc rest else rest

-- One more byte in front of the first part.
abbrev pub cut_later : ℕ → Option (Bytes × Bytes) → Option (Bytes × Bytes)
cut_later c none = none
cut_later c (some (a, b)) = some (c ∷ a, b)

-- The text before and behind the first `sep`: `strings.IndexByte` with the two slices that the
-- callers take at its result, or nothing where the result is -1.
unfoldable pub cut : ℕ → Bytes → Option (Bytes × Bytes)
cut sep [] = none
cut sep (c ∷ s) =
    let later = cut_later c (cut sep s) in if byte_eq c sep then some ([], s) else later

-- `strings.SplitN(s, sep, n)` for a separator of one byte.
unfoldable pub split_n : ℕ → ℕ → Bytes → List Bytes
split_n sep zero s = []
split_n sep (suc zero) s = s ∷ []
split_n sep (suc (suc n)) s = elim (cut sep s) [
  | none ↦ s ∷ []
  | some (a, b) ↦ a ∷ split_n sep (suc n) b
]

-- `strings.Join(parts, sep)`
unfoldable pub join : List Bytes → Bytes → Bytes
join [] sep = []
join (p ∷ []) sep = p
join (p ∷ q ∷ ps) sep = p ++ (sep ++ join (q ∷ ps) sep)

-- ASCII case, as in `strings.EqualFold` against an ASCII text and in `ToUpper` and `ToLower`.
abbrev pub lower : ℕ → ℕ
lower c = if leb b'A' c && leb c b'Z' then c + 32 else c

abbrev pub upper : ℕ → ℕ
upper c = if leb b'a' c && leb c b'z' then c - 32 else c

unfoldable pub is_ascii : Bytes → Bool
is_ascii [] = true
is_ascii (c ∷ s) = leb c 127 && is_ascii s

-- What the Unicode tables of the standard library say beyond ASCII.
pub record Unicode : Type 0 where
  pub is_print_wide : ℕ → Bool
  pub to_upper_wide : Bytes → Bytes
  pub to_lower_wide : Bytes → Bytes

-- `strings.ToUpper` and `strings.ToLower` map the bytes of an ASCII text one by one.
module _ ⦃u : Unicode⦄ where
  unfoldable pub to_upper : Bytes → Bytes
  to_upper s = if is_ascii s then map upper s else u.to_upper_wide s

  unfoldable pub to_lower : Bytes → Bytes
  to_lower s = if is_ascii s then map lower s else u.to_lower_wide s

-- `strings.EqualFold(s, t)` for a `t` that no letter beyond ASCII folds to (no k and no s).
unfoldable pub equal_fold : Bytes → Bytes → Bool
equal_fold s t = map lower s == map lower t
