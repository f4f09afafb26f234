-- ===== src/Text/Space/Trim.antt =====
-- What `strings.TrimSpace` returns, and the texts that it leaves alone.
use mathlib.Core.List.{reverse-append, reverse-reverse}
use maintainerd_sdk.Prelude.{
  ℕ, zero, suc, ◌≡◌, refl, sym, ap, ◌∙◌, ◌⊎◌, inl, inr, [], ◌∷◌, ◌++◌, reverse, arith, append_assoc,
}
use maintainerd_sdk.Text.{Bytes}
use maintainerd_sdk.Text.Space.{
  is_space1, is_space2, is_space3, space_width, space_width_back, skip, trim_left, trim_right,
  trim_space,
}

-- No white space at the front, none at the end.
abbrev pub IsTrimmed : Bytes → Type 0
IsTrimmed s = (space_width s ≡ 0) × (space_width_back (reverse s) ≡ 0)

ℕ-cases : (n : ℕ) → (n ≡ 0) ⊎ ((k : ℕ) × (n ≡ suc k))
ℕ-cases zero = inl refl
ℕ-cases (suc k) = inr (k, refl)

skip_step :
    (width : Bytes → ℕ) (c : ℕ) (s : Bytes) (w : ℕ)
    → width (c ∷ s) ≡ suc w
    → skip width 0 (c ∷ s) ≡ skip width w s
unfolding skip
skip_step width c s w h = ground arith

skip_fixed : (width : Bytes → ℕ) (s : Bytes) → width s ≡ 0 → skip width 0 s ≡ s
unfolding skip
skip_fixed width [] h = refl
skip_fixed width (c ∷ s) h = ground arith

skip_stops : (width : Bytes → ℕ) → width [] ≡ 0 → (n : ℕ) (s : Bytes) → width (skip width n s) ≡ 0
unfolding skip
skip_stops width h n [] = h
skip_stops width h (suc n) (c ∷ s) = skip_stops width h n s
skip_stops width h zero (c ∷ s) = elim (ℕ-cases (width (c ∷ s))) [
  | inl e ↦ ap width (skip_fixed width (c ∷ s) e) ∙ e
  | inr (w, e) ↦ ap width (skip_step width c s w e) ∙ skip_stops width h w s
]

-- What is skipped stands at the front.
skip_rest : (width : Bytes → ℕ) (n : ℕ) (s : Bytes) → (p : Bytes) × (s ≡ p ++ skip width n s)
unfolding skip
skip_rest width n [] = ([], refl)
skip_rest width (suc n) (c ∷ s) = let (p, e) = skip_rest width n s in (c ∷ p, ap (◌∷◌ c) e)
skip_rest width zero (c ∷ s) = elim (ℕ-cases (width (c ∷ s))) [
  | inl e ↦ ([], sym (skip_fixed width (c ∷ s) e))
  | inr (w, e) ↦
      let (p, q) = skip_rest width w s in
      (c ∷ p, ap (◌∷◌ c) q ∙ ap (λ t. c ∷ (p ++ t)) (sym (skip_step width c s w e)))
]

front_prefix : (t r : Bytes) → space_width (t ++ r) ≡ 0 → space_width t ≡ 0
unfolding space_width
front_prefix [] r h = refl
front_prefix (c ∷ []) [] h = h
front_prefix (c ∷ []) (d ∷ []) h = ground arith
front_prefix (c ∷ []) (d ∷ e ∷ r) h = ground arith
front_prefix (c ∷ d ∷ []) [] h = h
front_prefix (c ∷ d ∷ []) (e ∷ r) h = ground arith
front_prefix (c ∷ d ∷ e ∷ t) r h = h

-- The byte of `=` is in no white space, so it ends none.
front_equals : (t r : Bytes) → space_width t ≡ 0 → space_width (t ++ b'=' ∷ r) ≡ 0
unfolding space_width is_space1 is_space2 is_space3
front_equals [] [] h = refl
front_equals [] (d ∷ []) h = refl
front_equals [] (d ∷ e ∷ r) h = refl
front_equals (c ∷ []) [] h = ground arith
front_equals (c ∷ []) (e ∷ r) h = ground arith
front_equals (c ∷ d ∷ []) r h = ground arith
front_equals (c ∷ d ∷ e ∷ t) r h = h

back_equals : (t r : Bytes) → space_width_back t ≡ 0 → space_width_back (t ++ b'=' ∷ r) ≡ 0
unfolding space_width_back is_space1 is_space2 is_space3
back_equals [] [] h = refl
back_equals [] (d ∷ []) h = ground arith
back_equals [] (d ∷ e ∷ r) h = ground arith
back_equals (c ∷ []) [] h = ground arith
back_equals (c ∷ []) (e ∷ r) h = ground arith
back_equals (c ∷ d ∷ []) r h = ground arith
back_equals (c ∷ d ∷ e ∷ t) r h = h

trim_left-front : (s : Bytes) → space_width (trim_left s) ≡ 0
unfolding trim_left
trim_left-front s = skip_stops space_width (unfold space_width in refl) 0 s

trim_right-back : (s : Bytes) → space_width_back (reverse (trim_right s)) ≡ 0
unfolding trim_right
trim_right-back s =
    ap space_width_back (reverse-reverse (skip space_width_back 0 (reverse s)))
    ∙ skip_stops space_width_back (unfold space_width_back in refl) 0 (reverse s)

-- `TrimRight` returns a text before the white space.
trim_right_rest : (s : Bytes) → (q : Bytes) × (s ≡ trim_right s ++ q)
unfolding trim_right
trim_right_rest s =
    let (p, e) = skip_rest space_width_back 0 (reverse s) in
    (
      reverse p,
      sym (reverse-reverse s)
          ∙ ap reverse e
          ∙ reverse-append p (skip space_width_back 0 (reverse s)),
    )

trim_left_rest : (s : Bytes) → (p : Bytes) × (s ≡ p ++ trim_left s)
unfolding trim_left
trim_left_rest s = skip_rest space_width 0 s

-- The result has no white space at either end.
pub trim_space-IsTrimmed : (s : Bytes) → IsTrimmed (trim_space s)
unfolding trim_space
trim_space-IsTrimmed s =
    let t = trim_left s in
    let (q, e) = trim_right_rest t in
    (front_prefix (trim_right t) q (ap space_width (sym e) ∙ trim_left-front s), trim_right-back t)

-- A text with no white space at either end is left alone.
pub trim_space_fixed : (s : Bytes) → IsTrimmed s → trim_space s ≡ s
unfolding trim_space trim_left trim_right
trim_space_fixed s (front, back) =
    ap (λ t. reverse (skip space_width_back 0 (reverse t))) (skip_fixed space_width s front)
    ∙ ap reverse (skip_fixed space_width_back (reverse s) back)
    ∙ reverse-reverse s

-- The result is a part of the text.
pub trim_space_part : (s : Bytes) → (p : Bytes) × (q : Bytes) × (s ≡ p ++ (trim_space s ++ q))
unfolding trim_space
trim_space_part s =
    let (p, e) = trim_left_rest s in
    let (q, f) = trim_right_rest (trim_left s) in (p, q, e ∙ ap (λ t. p ++ t) f)

reverse_equals : (s t : Bytes) → reverse (s ++ b'=' ∷ t) ≡ reverse t ++ b'=' ∷ reverse s
reverse_equals s t =
    reverse-append s (b'=' ∷ t)
    ∙ ap (λ r. r ++ reverse s) (reverse-append (b'=' ∷ []) t)
    ∙ append_assoc (reverse t) (b'=' ∷ []) (reverse s)

-- Two trimmed texts around an equals sign make a trimmed text.
pub equals-IsTrimmed : (s t : Bytes) → IsTrimmed s → IsTrimmed t → IsTrimmed (s ++ b'=' ∷ t)
equals-IsTrimmed s t (front, _) (_, back) = (
  front_equals s t front,
  ap space_width_back (reverse_equals s t) ∙ back_equals (reverse t) (reverse s) back,
)
