-- ===== src/Text/Utf8.antt =====
-- `utf8.ValidString`, the runes that `range` reads from a valid text, and `unicode.IsPrint`.
use maintainerd_sdk.Prelude.{
  ℕ, zero, suc, ◌+◌, ◌-◌, ◌*◌, Bool, true, false, ◌&&◌, List, [], ◌∷◌, Option, none, some, byte_eq,
  leb, ltb, if◌then◌else◌,
}
use maintainerd_sdk.Text.{Bytes, Unicode}

unfoldable pub in_range : ℕ → ℕ → ℕ → Bool
in_range lo hi c = leb lo c && leb c hi

-- A rune and the number of bytes behind its first one.
abbrev pub Rune : Type 0
Rune = Option (ℕ × ℕ)

-- Two, three and four bytes; the second byte has a range of its own, which excludes the overlong
-- forms, the surrogates, and what is above U+10FFFF.
unfoldable pub rune2 : ℕ → Bytes → Rune
rune2 c [] = none
rune2 c (d ∷ s) = if in_range 0x80 0xbf d then some ((c - 0xc0) * 64 + (d - 0x80), 1) else none

unfoldable pub rune3 : ℕ → ℕ → ℕ → Bytes → Rune
rune3 lo hi c (d ∷ e ∷ s) =
    if in_range lo hi d && in_range 0x80 0xbf e
    then some ((c - 0xe0) * 4096 + (d - 0x80) * 64 + (e - 0x80), 2)
    else none
rune3 lo hi c s = none

unfoldable pub rune4 : ℕ → ℕ → ℕ → Bytes → Rune
rune4 lo hi c (d ∷ e ∷ f ∷ s) =
    if in_range lo hi d && (in_range 0x80 0xbf e && in_range 0x80 0xbf f)
    then some ((c - 0xf0) * 262144 + (d - 0x80) * 4096 + (e - 0x80) * 64 + (f - 0x80), 3)
    else none
rune4 lo hi c s = none

-- `utf8.DecodeRuneInString` at the front of a text; nothing where it reports an error.
unfoldable pub decode_rune : ℕ → Bytes → Rune
decode_rune c s =
    if leb c 0x7f
    then some (c, 0)
    else if in_range 0xc2 0xdf c
    then rune2 c s
    else if byte_eq c 0xe0
    then rune3 0xa0 0xbf c s
    else if byte_eq c 0xed
    then rune3 0x80 0x9f c s
    else if in_range 0xe1 0xef c
    then rune3 0x80 0xbf c s
    else if byte_eq c 0xf0
    then rune4 0x90 0xbf c s
    else if in_range 0xf1 0xf3 c
    then rune4 0x80 0xbf c s
    else if byte_eq c 0xf4
    then rune4 0x80 0x8f c s
    else none

abbrev pub runes_later : ℕ → Option (List ℕ) → Option (List ℕ)
runes_later r none = none
runes_later r (some rs) = some (r ∷ rs)

unfoldable pub runes_from : ℕ → Bytes → Option (List ℕ)
runes_from pending [] = some []
runes_from (suc pending) (c ∷ s) = runes_from pending s
runes_from zero (c ∷ s) = elim (decode_rune c s) [
  | none ↦ none
  | some (r, w) ↦ runes_later r (runes_from w s)
]

-- The runes of a text, or nothing where it is not valid UTF-8.
unfoldable pub runes : Bytes → Option (List ℕ)
runes s = runes_from 0 s

abbrev pub is_some : Option (List ℕ) → Bool
is_some none = false
is_some (some rs) = true

unfoldable pub valid_string : Bytes → Bool
valid_string s = is_some (runes s)

module _ ⦃u : Unicode⦄ where
  -- `unicode.IsPrint`
  unfoldable pub is_print : ℕ → Bool
  is_print r = if ltb r 128 then leb 32 r && ltb r 127 else u.is_print_wide r

  unfoldable pub all_print : List ℕ → Bool
  all_print [] = true
  all_print (r ∷ rs) = if is_print r then all_print rs else false

  -- `for _, r := range s { if !unicode.IsPrint(r) … }` over a valid text.
  unfoldable pub print_string : Bytes → Bool
  print_string s = elim (runes s) [ none ↦ false | some rs ↦ all_print rs ]
