-- ===== src/Authz/Surface/Slashes.antt =====
-- One slash more behind a path: the keys of the permission table, and the exempt prefixes.
use mathlib.Core.List.{append_cancel_right}
use maintainerd_sdk.Prelude.{
  ◌≡◌, refl, sym, ap, ◌∙◌, ◌≢◌, inl, inr, true, false, [], ◌∷◌, ◌++◌, arith, append_assoc, byte_eq,
  Bool-cases, append_last_cases, drop-append_length,
}
use maintainerd_sdk.Text.{Bytes, ◌==◌, has_prefix, has_suffix, trim_prefix, trim_suffix, cut}
use maintainerd_sdk.Text.Laws.{
  has_prefix_iff, has_prefix-append, has_suffix_iff, trim_suffix-append,
}
use maintainerd_sdk.Authz.Surface.{before_slash, first_segment, path_has_prefix}
use maintainerd_sdk.Authz.Surface.Keys.{path_has_prefix_iff}

abbrev pub slash : Bytes
slash = b'/' ∷ []

-- An entry that ends in two slashes names no segment.
abbrev pub EndsTwice : Bytes → Type 0
EndsTwice prefix = (p : Bytes) × (prefix ≡ (p ++ slash) ++ slash)

trim_prefix-append : (p r : Bytes) → trim_prefix (p ++ r) p ≡ r
unfolding trim_prefix
trim_prefix-append p r = rw (has_prefix-append p r) (drop-append_length p r)

before_slash-append : (path : Bytes) → before_slash (path ++ slash) ≡ before_slash path
unfolding cut
before_slash-append [] = refl
before_slash-append (c ∷ s) = ground (arith, before_slash-append s)

-- The entry less a trailing slash has none left.
trimmed_once : (prefix path : Bytes) → ¬ EndsTwice prefix → path ++ slash ≢ trim_suffix prefix slash
trimmed_once prefix path once e = elim (Bool-cases (has_suffix prefix slash)) [
  | inl ends ↦
      let (r, same) = (has_suffix_iff prefix slash).0 ends in
      let trimmed : trim_suffix prefix slash ≡ r =
        ap (λ t. trim_suffix t slash) same ∙ trim_suffix-append r slash in
      once (path, same ∙ ap (λ t. t ++ slash) (sym (e ∙ trimmed)))
  | inr bare ↦
      let whole : trim_suffix prefix slash ≡ prefix = unfold trim_suffix in rw bare in
      let ends = (has_suffix_iff prefix slash).1 (path, sym (e ∙ whole)) in absurd (ground arith)
]

under_slash :
    (path prefix : Bytes)
    → ¬ EndsTwice prefix
    → path_has_prefix (path ++ slash) prefix ≡ true
    → path_has_prefix path prefix ≡ true
under_slash path prefix once h =
    let (filled, either) = (path_has_prefix_iff (path ++ slash) prefix).0 h in
    (path_has_prefix_iff path prefix).1 (
      filled,
      elim either [
        | inl e ↦ absurd (trimmed_once prefix path once e)
        | inr (rest, e) ↦
            let t = trim_suffix prefix slash in
            elim (append_last_cases path (t ++ slash) rest b'/'
              (e ∙ sym (append_assoc t slash rest))) [
                | inl (empty, same) ↦ inl (append_cancel_right path t slash same)
                | inr (ws, last, same) ↦ inr (ws, same ∙ append_assoc t slash ws)
              ]
      ],
    )

beneath :
    (path prefix : Bytes)
    → path_has_prefix path prefix ≡ true
    → path_has_prefix (path ++ slash) prefix ≡ true
beneath path prefix h =
    let (filled, either) = (path_has_prefix_iff path prefix).0 h in
    (path_has_prefix_iff (path ++ slash) prefix).1 (
      filled,
      elim either [
        | inl e ↦ inr ([], ap (λ t. t ++ slash) e)
        | inr (rest, e) ↦ inr (
          rest ++ slash,
          ap (λ t. t ++ slash) e ∙ append_assoc (trim_suffix prefix slash) (b'/' ∷ rest) slash,
        )
      ],
    )

-- An entry that does not end in two slashes exempts a path with or without a slash behind it.
pub path_has_prefix-slash :
    (path prefix : Bytes)
    → ¬ EndsTwice prefix
    → path_has_prefix (path ++ slash) prefix ≡ path_has_prefix path prefix
path_has_prefix-slash path prefix once = elim (Bool-cases (path_has_prefix path prefix)) [
  | inl under ↦ beneath path prefix under ∙ sym under
  | inr beside ↦ elim (Bool-cases (path_has_prefix (path ++ slash) prefix)) [
    | inl under ↦ absurd (ground (arith, under_slash path prefix once under))
    | inr beside' ↦ beside' ∙ sym beside
  ]
]

beyond :
    (prefix path : Bytes)
    → has_prefix path prefix ≡ false
    → has_prefix (path ++ slash) prefix ≡ true
    → trim_prefix (path ++ slash) prefix ≡ []
beyond prefix path h longer =
    let (rest, e) = (has_prefix_iff (path ++ slash) prefix).0 longer in
    elim (append_last_cases path prefix rest b'/' e) [
      | inl (empty, same) ↦
          ap (λ t. trim_prefix t prefix) (e ∙ ap (λ r. prefix ++ r) empty)
          ∙ trim_prefix-append prefix []
      | inr (ws, last, same) ↦ absurd (ground (arith, (has_prefix_iff path prefix).1 (ws, same)))
    ]

trim_lead :
    (path : Bytes) → path ≢ [] → trim_prefix (path ++ slash) slash ≡ trim_prefix path slash ++ slash
trim_lead [] filled = absurd (filled refl)
trim_lead (c ∷ s) filled = elim (Bool-cases (byte_eq c b'/')) [
  | inl rooted ↦ unfold trim_prefix has_prefix in rw rooted refl
  | inr bare ↦ unfold trim_prefix has_prefix in rw bare refl
]

segment_under :
    (prefix rest : Bytes)
    → (prefix == []) ≡ false
    → first_segment prefix (prefix ++ rest) ≡ before_slash rest
unfolding first_segment
segment_under prefix rest named =
    rw (named, has_prefix-append prefix rest) (ap before_slash (trim_prefix-append prefix rest))

-- The route key is the same for a path with or without a slash behind it.
pub first_segment-slash :
    (prefix path : Bytes)
    → path ≢ []
    → first_segment prefix (path ++ slash) ≡ first_segment prefix path
first_segment-slash prefix path filled = elim (Bool-cases (prefix == [])) [
  | inl bare ↦
      unfold first_segment in
      rw bare
        (ap before_slash (trim_lead path filled) ∙ before_slash-append (trim_prefix path slash))
  | inr named ↦ elim (Bool-cases (has_prefix path prefix)) [
    | inl under ↦
        let (rest, e) = (has_prefix_iff path prefix).0 under in
        ap (λ p. first_segment prefix (p ++ slash)) e
        ∙ ap (first_segment prefix) (append_assoc prefix rest slash)
        ∙ segment_under prefix (rest ++ slash) named
        ∙ before_slash-append rest
        ∙ sym (segment_under prefix rest named)
        ∙ sym (ap (first_segment prefix) e)
    | inr beside ↦ elim (Bool-cases (has_prefix (path ++ slash) prefix)) [
      | inl longer ↦
          unfold first_segment cut in
          rw (named, beside, longer, beyond prefix path beside longer) refl
      | inr beside' ↦ unfold first_segment in rw (named, beside, beside') refl
    ]
  ]
]
