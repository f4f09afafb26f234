-- ===== src/Text/Space.antt =====
-- `strings.TrimSpace` and `strings.Fields`. White space is that of Unicode, in its UTF-8 bytes: no
-- byte that starts such a sequence continues another rune, so a scan of the bytes meets the same
-- runes as a decoder, also in a text that is not valid UTF-8.
pub mod Trim
pub mod Fields
use maintainerd_sdk.Prelude.{
  ℕ, zero, suc, Bool, ◌&&◌, ◌||◌, List, [], ◌∷◌, ◌++◌, reverse, byte_eq, leb, if◌then◌else◌,
}
use maintainerd_sdk.Text.{Bytes}

-- "\t\n\v\f\r" and the space.
unfoldable pub is_space1 : ℕ → Bool
is_space1 c = (leb 9 c && leb c 13) || byte_eq c 32

-- U+0085 and U+00A0.
unfoldable pub is_space2 : ℕ → ℕ → Bool
is_space2 c d = byte_eq c 0xc2 && (byte_eq d 0x85 || byte_eq d 0xa0)

-- U+1680, U+2000 to U+200A, U+2028, U+2029, U+202F, U+205F and U+3000.
unfoldable pub is_space3 : ℕ → ℕ → ℕ → Bool
is_space3 c d e =
    (byte_eq c 0xe1 && (byte_eq d 0x9a && byte_eq e 0x80))
    || (byte_eq c 0xe2
        && (byte_eq d 0x80
              && (leb 0x80 e && leb e 0x8a
                  || (byte_eq e 0xa8 || (byte_eq e 0xa9 || byte_eq e 0xaf)))
            || byte_eq d 0x81 && byte_eq e 0x9f))
    || (byte_eq c 0xe3 && (byte_eq d 0x80 && byte_eq e 0x80))

-- How many bytes the white space at the front of a text takes, 0 if there is none.
unfoldable pub space_width : Bytes → ℕ
space_width [] = 0
space_width (c ∷ []) = if is_space1 c then 1 else 0
space_width (c ∷ d ∷ []) = if is_space1 c then 1 else if is_space2 c d then 2 else 0
space_width (c ∷ d ∷ e ∷ s) =
    if is_space1 c then 1 else if is_space2 c d then 2 else if is_space3 c d e then 3 else 0

-- The same at the end of a text that is read from its last byte.
unfoldable pub space_width_back : Bytes → ℕ
space_width_back [] = 0
space_width_back (c ∷ []) = if is_space1 c then 1 else 0
space_width_back (c ∷ d ∷ []) = if is_space1 c then 1 else if is_space2 d c then 2 else 0
space_width_back (c ∷ d ∷ e ∷ s) =
    if is_space1 c then 1 else if is_space2 d c then 2 else if is_space3 e d c then 3 else 0

-- Drops white space as long as there is some; `pending` bytes of it are still to be dropped.
unfoldable pub skip : (Bytes → ℕ) → ℕ → Bytes → Bytes
skip width pending [] = []
skip width (suc pending) (c ∷ s) = skip width pending s
skip width zero (c ∷ s) = elim (width (c ∷ s)) [ zero ↦ c ∷ s | suc w ↦ skip width w s ]

-- `strings.TrimLeftFunc(s, unicode.IsSpace)`
unfoldable pub trim_left : Bytes → Bytes
trim_left s = skip space_width 0 s

-- `strings.TrimRightFunc(s, unicode.IsSpace)`
unfoldable pub trim_right : Bytes → Bytes
trim_right s = reverse (skip space_width_back 0 (reverse s))

-- `strings.TrimSpace`
unfoldable pub trim_space : Bytes → Bytes
trim_space s = trim_right (trim_left s)

-- The field that has been read goes to the result unless it is empty.
abbrev pub close_field : Bytes → List Bytes → List Bytes
close_field [] fields = fields
close_field (c ∷ s) fields = (c ∷ s) ∷ fields

unfoldable pub fields_from : ℕ → Bytes → Bytes → List Bytes
fields_from pending cur [] = close_field cur []
fields_from (suc pending) cur (c ∷ s) = fields_from pending cur s
fields_from zero cur (c ∷ s) = elim (space_width (c ∷ s)) [
  | zero ↦ fields_from zero (cur ++ c ∷ []) s
  | suc w ↦ close_field cur (fields_from w [] s)
]

-- `strings.Fields`
unfoldable pub fields : Bytes → List Bytes
fields s = fields_from 0 [] s
