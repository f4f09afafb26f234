-- ===== src/Text/Space/Fields.antt =====
-- `strings.Fields` reads back what `strings.Join` writes with a space between words.
use maintainerd_sdk.Prelude.{
  ℕ, ◌≤◌, ◌≡◌, refl, sym, ap, ◌∙◌, ◌≢◌, List, [], ◌∷◌, ◌++◌, arith, append-nil, append_assoc, All,
}
use maintainerd_sdk.Text.{Bytes, codes, join}
use maintainerd_sdk.Text.Space.{
  is_space1, is_space2, is_space3, space_width, close_field, fields_from, fields,
}

-- A printable ASCII byte that is no space.
abbrev pub IsGraphic : ℕ → Type 0
IsGraphic c = (33 ≤ c) × (c ≤ 126)

abbrev pub IsWord : Bytes → Type 0
IsWord w = (w ≢ []) × All IsGraphic w

graphic_width : (c : ℕ) (s : Bytes) → IsGraphic c → space_width (c ∷ s) ≡ 0
unfolding space_width is_space1 is_space2 is_space3
graphic_width c [] h = ground arith
graphic_width c (d ∷ []) h = ground arith
graphic_width c (d ∷ e ∷ s) h = ground arith

space_one : (s : Bytes) → space_width (b' ' ∷ s) ≡ 1
unfolding space_width is_space1
space_one [] = refl
space_one (d ∷ []) = refl
space_one (d ∷ e ∷ s) = refl

fields_graphic :
    (c : ℕ) (cur s : Bytes)
    → space_width (c ∷ s) ≡ 0
    → fields_from 0 cur (c ∷ s) ≡ fields_from 0 (cur ++ c ∷ []) s
unfolding fields_from
fields_graphic c cur s h = ground arith

fields_space :
    (c : ℕ) (cur s : Bytes)
    → space_width (c ∷ s) ≡ 1
    → fields_from 0 cur (c ∷ s) ≡ close_field cur (fields_from 0 [] s)
unfolding fields_from
fields_space c cur s h = ground arith

-- A word is read into the current field.
fields_word :
    (w cur s : Bytes) → All IsGraphic w → fields_from 0 cur (w ++ s) ≡ fields_from 0 (cur ++ w) s
fields_word [] cur s h = ap (λ t. fields_from 0 t s) (sym (append-nil cur))
fields_word (c ∷ w) cur s (g, h) =
    fields_graphic c cur (w ++ s) (graphic_width c (w ++ s) g)
    ∙ fields_word w (cur ++ c ∷ []) s h
    ∙ ap (λ t. fields_from 0 t s) (append_assoc cur (c ∷ []) w)

close_word : (w : Bytes) (rest : List Bytes) → w ≢ [] → close_field w rest ≡ w ∷ rest
close_word [] rest h = absurd (h refl)
close_word (c ∷ w) rest h = refl

fields_last : (w : Bytes) → IsWord w → fields_from 0 w [] ≡ w ∷ []
unfolding fields_from
fields_last w (filled, g) = close_word w [] filled

pub fields-nil : fields [] ≡ []
unfolding fields fields_from
fields-nil = refl

-- The fields of words that are joined by spaces are the words.
pub fields-join : (ws : List Bytes) → All IsWord ws → fields (join ws (codes " ")) ≡ ws
unfolding fields join
fields-join [] h = unfold fields_from in refl
fields-join (w ∷ []) ((filled, g), _) =
    ap (fields_from 0 []) (sym (append-nil w)) ∙ fields_word w [] [] g ∙ fields_last w (filled, g)
fields-join (w ∷ v ∷ ws) ((filled, g), h) =
    let rest = join (v ∷ ws) (codes " ") in
    fields_word w [] (b' ' ∷ rest) g
    ∙ fields_space b' ' w rest (space_one rest)
    ∙ close_word w (fields_from 0 [] rest) filled
    ∙ ap (λ t. w ∷ t) (fields-join (v ∷ ws) h)
