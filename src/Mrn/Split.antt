-- ===== src/Mrn/Split.antt =====
-- `split` cuts a text into the scheme and four parts exactly as `render` puts them together.
use maintainerd_sdk.Prelude.{
  ℕ, suc, ◌≡◌, refl, ap, ◌∙◌, true, List, [], ◌∷◌, ◌++◌, arith, length, ok, err, ◌⊎◌, false,
  Option-cases, inl, inr,
}
use maintainerd_sdk.Text.{Bytes, codes, cut, split_n, has_prefix}
use maintainerd_sdk.Text.Laws.{Lacks, has_prefix_iff, has_prefix-append}
use maintainerd_sdk.Text.Search.{cut-append, cut_sound}
use maintainerd_sdk.Mrn.{MrnError, no_prefix, part_count, prefix, render, split}

split_n-append :
    (sep n : ℕ) (a b : Bytes)
    → Lacks sep a
    → split_n sep (suc (suc n)) (a ++ sep ∷ b) ≡ a ∷ split_n sep (suc n) b
unfolding split_n
split_n-append sep n a b h = ground (arith, cut-append sep a b h)

-- A text that gives two parts or more has a separator.
split_n_more :
    (sep n : ℕ) (s : Bytes) (k : ℕ)
    → length (split_n sep (suc (suc n)) s) ≡ suc (suc k)
    → (a : Bytes) × (b : Bytes) × (s ≡ a ++ sep ∷ b)
      × Lacks sep a
      × (length (split_n sep (suc n) b) ≡ suc k)
unfolding split_n
split_n_more sep n s k h = elim (Option-cases (cut sep s)) [
  | inl missed ↦ absurd (ground arith)
  | inr ((a, b), found) ↦
      let (spelled, lacks) = cut_sound sep s a b found in (a, b, spelled, lacks, ground arith)
]

split_n_all :
    (a b c d : Bytes)
    → Lacks b':' a
    → Lacks b':' b
    → Lacks b':' c
    → split_n b':' 5 (render a b c d) ≡ codes "mrn" ∷ a ∷ b ∷ c ∷ d ∷ []
unfolding render
split_n_all a b c d ha hb hc =
    split_n-append b':' 3 (codes "mrn") _ (ground arith)
    ∙ ap (λ t. codes "mrn" ∷ t)
        (split_n-append b':' 2 a _ ha
          ∙ ap (λ t. a ∷ t)
              (split_n-append b':' 1 b _ hb
                ∙ ap (λ t. b ∷ t)
                    (split_n-append b':' 0 c d hc ∙ ap (λ t. c ∷ t) (unfold split_n in refl))))

has_prefix-render : (a b c d : Bytes) → has_prefix (render a b c d) prefix ≡ true
unfolding render
has_prefix-render a b c d = has_prefix-append prefix _

-- The parts of a rendered name are the scheme and the four texts that were rendered.
pub split-render :
    (a b c d : Bytes)
    → Lacks b':' a
    → Lacks b':' b
    → Lacks b':' c
    → split (render a b c d) ≡ ok (codes "mrn" ∷ a ∷ b ∷ c ∷ d ∷ [])
unfolding split
split-render a b c d ha hb hc =
    ground (arith, has_prefix-render a b c d, split_n_all a b c d ha hb hc)

-- The two guards of `split`, with the parts that it returns.
split_guards :
    (s : Bytes) (parts : List Bytes)
    → split s ≡ ok parts
    → (has_prefix s prefix ≡ true) × (length (split_n b':' 5 s) ≡ 5) × (parts ≡ split_n b':' 5 s)
unfolding split
split_guards s parts h = ground arith

render_of_cuts :
    (s r r1 r2 a b c d : Bytes)
    → s ≡ prefix ++ r
    → r ≡ a ++ b':' ∷ r1
    → r1 ≡ b ++ b':' ∷ r2
    → r2 ≡ c ++ b':' ∷ d
    → s ≡ render a b c d
unfolding render
render_of_cuts s r r1 r2 a b c d e e1 e2 e3 = cc

-- A text that `split` accepts is rendered from four texts, of which the first three lack a colon.
pub split_parts :
    (s : Bytes) (parts : List Bytes)
    → split s ≡ ok parts
    → (a : Bytes) × (b : Bytes) × (c : Bytes) × (d : Bytes) × (s ≡ render a b c d)
      × (parts ≡ codes "mrn" ∷ a ∷ b ∷ c ∷ d ∷ [])
      × Lacks b':' a
      × Lacks b':' b
      × Lacks b':' c
split_parts s parts h =
    let (starts, five, same) = split_guards s parts h in
    let (r, spelled) = (has_prefix_iff s prefix).0 starts in
    let rest : length (split_n b':' 4 r) ≡ 4 =
      ground (arith, split_n-append b':' 3 (codes "mrn") r (ground arith)) in
    let (a, r1, e1, ha, three) = split_n_more b':' 2 r 2 rest in
    let (b, r2, e2, hb, two) = split_n_more b':' 1 r1 1 three in
    let (c, d, e3, hc, one) = split_n_more b':' 0 r2 0 two in
    let whole : s ≡ render a b c d = render_of_cuts s r r1 r2 a b c d spelled e1 e2 e3 in
    (a, b, c, d, whole, same ∙ ap (split_n b':' 5) whole ∙ split_n_all a b c d ha hb hc, ha, hb, hc)

pub split_sound :
    (s : Bytes) (parts : List Bytes)
    → split s ≡ ok parts
    → (a : Bytes) × (b : Bytes) × (c : Bytes) × (d : Bytes) × (s ≡ render a b c d)
      × (parts ≡ codes "mrn" ∷ a ∷ b ∷ c ∷ d ∷ [])
split_sound s parts h =
    let (a, b, c, d, whole, same, ha, hb, hc) = split_parts s parts h in (a, b, c, d, whole, same)

-- `split` refuses a text for its scheme first, and then for its parts.
pub split_refuses :
    (s : Bytes) (e : MrnError)
    → split s ≡ err e
    → ((e ≡ no_prefix) × (has_prefix s prefix ≡ false))
      ⊎ ((e ≡ part_count) × (has_prefix s prefix ≡ true))
unfolding split
split_refuses s e h = ground arith

pub split_no_prefix : (s : Bytes) → has_prefix s prefix ≡ false → split s ≡ err no_prefix
unfolding split
split_no_prefix s h = ground arith
