-- ===== src/Text/Laws.antt =====
-- What the tests on texts decide: equality, prefix, suffix, absence of a byte.
use maintainerd_sdk.Prelude.{
  ℕ, ◌+◌, ◌-◌, ◌≡◌, refl, sym, ap, ◌∙◌, ◌≢◌, ◌↔◌, true, false, [], ◌∷◌, ◌++◌, arith, length, take,
  drop, length-append, take-append-drop, drop-append_length, take-append_length, All, &&-eq-true,
}
use maintainerd_sdk.Text.{
  Bytes, ◌==◌, has_prefix, has_suffix, trim_suffix, contains_rune, count_byte,
}

abbrev pub Lacks : ℕ → Bytes → Type 0
Lacks c = All (λ d. d ≢ c)

eq_sound : (s t : Bytes) → (s == t) ≡ true → s ≡ t
unfolding ◌==◌
eq_sound [] [] h = refl
eq_sound [] (d ∷ t) h = cc
eq_sound (c ∷ s) [] h = cc
eq_sound (c ∷ s) (d ∷ t) h = ground (arith, eq_sound s t)

eq_refl : (s : Bytes) → (s == s) ≡ true
unfolding ◌==◌
eq_refl [] = refl
eq_refl (c ∷ s) = ground (arith, eq_refl s)

pub eq_iff : (s t : Bytes) → ((s == t) ≡ true) ↔ (s ≡ t)
eq_iff s t = (eq_sound s t, λ e. rw e (eq_refl t))

pub has_prefix-append : (p r : Bytes) → has_prefix (p ++ r) p ≡ true
unfolding has_prefix
has_prefix-append [] r = elim r as (λ r. has_prefix r [] ≡ true) [ [] ↦ refl | c ∷ s ↦ refl ]
has_prefix-append (c ∷ p) r = ground (arith, has_prefix-append p r)

has_prefix_sound : (s p : Bytes) → has_prefix s p ≡ true → s ≡ p ++ drop (length p) s
unfolding has_prefix
has_prefix_sound s [] h = refl
has_prefix_sound [] (d ∷ p) h = cc
has_prefix_sound (c ∷ s) (d ∷ p) h = ground (arith, has_prefix_sound s p)

-- A text has a prefix exactly when it is the prefix and a rest.
pub has_prefix_iff : (s p : Bytes) → (has_prefix s p ≡ true) ↔ ((r : Bytes) × (s ≡ p ++ r))
has_prefix_iff s p =
    (λ h. (drop (length p) s, has_prefix_sound s p h), λ h. rw (h.1) (has_prefix-append p h.0))

suffix_rest : (r p : Bytes) → length (r ++ p) - length p ≡ length r
suffix_rest r p = omega (arith, length-append r p)

pub has_suffix-append : (r p : Bytes) → has_suffix (r ++ p) p ≡ true
unfolding has_suffix
has_suffix-append r p =
    rw (suffix_rest r p, drop-append_length r p, eq_refl p) (ground (arith, length-append r p))

has_suffix_sound : (s p : Bytes) → has_suffix s p ≡ true → s ≡ take (length s - length p) s ++ p
unfolding has_suffix
has_suffix_sound s p h =
    let (fits, same) = &&-eq-true _ _ h in
    let start = take (length s - length p) s in
    sym (take-append-drop (length s - length p) s) ∙ ap (λ t. start ++ t) ((eq_iff _ p).0 same)

-- A text has a suffix exactly when it is some text before the suffix.
pub has_suffix_iff : (s p : Bytes) → (has_suffix s p ≡ true) ↔ ((r : Bytes) × (s ≡ r ++ p))
has_suffix_iff s p = (
  λ h. (take (length s - length p) s, has_suffix_sound s p h),
  λ h. rw (h.1) (has_suffix-append h.0 p),
)

pub trim_suffix-append : (r p : Bytes) → trim_suffix (r ++ p) p ≡ r
unfolding trim_suffix
trim_suffix-append r p = rw (has_suffix-append r p, suffix_rest r p) (take-append_length r p)

pub contains_rune_iff : (s : Bytes) (c : ℕ) → (contains_rune s c ≡ false) ↔ Lacks c s
unfolding contains_rune
contains_rune_iff [] c = (λ h. tt, λ h. refl)
contains_rune_iff (d ∷ s) c = ground (arith, contains_rune_iff s c)

pub count_byte-append :
    (s t : Bytes) (c : ℕ) → count_byte (s ++ t) c ≡ count_byte s c + count_byte t c
unfolding count_byte
count_byte-append [] t c = omega arith
count_byte-append (d ∷ s) t c = ground (arith, count_byte-append s t c)

pub count_byte-eq-zero_iff : (s : Bytes) (c : ℕ) → (count_byte s c ≡ 0) ↔ Lacks c s
unfolding count_byte
count_byte-eq-zero_iff [] c = (λ h. tt, λ h. refl)
count_byte-eq-zero_iff (d ∷ s) c = ground (arith, count_byte-eq-zero_iff s c)

-- A byte that is counted stands in the text.
pub contains_rune-append :
    (s t : Bytes) (c : ℕ) → contains_rune t c ≡ true → contains_rune (s ++ t) c ≡ true
unfolding contains_rune
contains_rune-append [] t c h = h
contains_rune-append (d ∷ s) t c h = ground (arith, contains_rune-append s t c)
