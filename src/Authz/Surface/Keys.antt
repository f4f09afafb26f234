-- ===== src/Authz/Surface/Keys.antt =====
-- The keys of the permission table: trailing slashes, and prefixes on a segment boundary.
use mathlib.Core.List.{reverse-append, reverse-reverse}
use maintainerd_sdk.Prelude.{
  ◌≡◌, refl, sym, ap, ◌∙◌, ◌≢◌, ◌↔◌, ◌⊎◌, inl, inr, true, [], ◌∷◌, ◌++◌, reverse, arith,
  append_assoc, byte_eq, Bool-cases,
}
use maintainerd_sdk.Text.{Bytes, codes, has_prefix, trim_suffix, Unicode}
use maintainerd_sdk.Text.Laws.{eq_iff, has_prefix_iff}
use maintainerd_sdk.Authz.Surface.{trim_slashes, trim_trailing_slash, exact_key, path_has_prefix}

trim_slashes-cons : (s : Bytes) → s ≢ [] → trim_slashes (b'/' ∷ s) ≡ trim_slashes s
unfolding trim_slashes
trim_slashes-cons [] h = absurd (h refl)
trim_slashes-cons (c ∷ s) h = refl

trim_slashes_idem : (s : Bytes) → trim_slashes (trim_slashes s) ≡ trim_slashes s
unfolding trim_slashes
trim_slashes_idem [] = refl
trim_slashes_idem (c ∷ []) = refl
trim_slashes_idem (c ∷ d ∷ s) = elim (Bool-cases (byte_eq c b'/')) [
  | inl slash ↦ rw slash (trim_slashes_idem (d ∷ s))
  | inr other ↦ rw (other, other)
]

reverse-ne-nil : (s : Bytes) → s ≢ [] → reverse s ≢ []
reverse-ne-nil s h e = h (sym (reverse-reverse s) ∙ ap reverse e)

trim_trailing_slash-append :
    (path : Bytes) → path ≢ [] → trim_trailing_slash (path ++ codes "/") ≡ trim_trailing_slash path
unfolding trim_trailing_slash
trim_trailing_slash-append path h =
    ap (λ t. reverse (trim_slashes t)) (reverse-append path (codes "/"))
    ∙ ap reverse (trim_slashes-cons (reverse path) (reverse-ne-nil path h))

trim_trailing_slash_idem :
    (path : Bytes) → trim_trailing_slash (trim_trailing_slash path) ≡ trim_trailing_slash path
unfolding trim_trailing_slash
trim_trailing_slash_idem path =
    ap (λ t. reverse (trim_slashes t)) (reverse-reverse (trim_slashes (reverse path)))
    ∙ ap reverse (trim_slashes_idem (reverse path))

module _ ⦃u : Unicode⦄ where
  -- One trailing slash more or less on a path that is not empty does not change the key of a
  -- surface, and neither does writing the path as the key has it.
  pub exact_key_spellings :
      (method path : Bytes)
      → path ≢ []
      → (exact_key method (path ++ codes "/") ≡ exact_key method path)
        × (exact_key method (trim_trailing_slash path) ≡ exact_key method path)
  unfolding exact_key
  exact_key_spellings method path h =
      (rw (trim_trailing_slash-append path h), rw (trim_trailing_slash_idem path))

prefix_tests :
    (path prefix : Bytes)
    → (path_has_prefix path prefix ≡ true) ↔ (
        (prefix ≢ [])
        × ((path ≡ trim_suffix prefix (codes "/"))
            ⊎ (has_prefix path (trim_suffix prefix (codes "/") ++ codes "/") ≡ true)))
unfolding path_has_prefix
prefix_tests path prefix =
    ground (arith, eq_iff prefix [], eq_iff path (trim_suffix prefix (codes "/")))

-- A path lies under an exempt prefix exactly if the prefix is not empty and the path is the prefix
-- less one trailing slash, or that followed by a slash and anything: never a longer neighbour.
pub path_has_prefix_iff :
    (path prefix : Bytes)
    → (path_has_prefix path prefix ≡ true) ↔ (
        (prefix ≢ [])
        × ((path ≡ trim_suffix prefix (codes "/"))
            ⊎ ((rest : Bytes) × (path ≡ trim_suffix prefix (codes "/") ++ b'/' ∷ rest))))
path_has_prefix_iff path prefix =
    let t = trim_suffix prefix (codes "/") in
    (
      λ h.
          let (filled, either) = (prefix_tests path prefix).0 h in
          (
            filled,
            elim either [
              | inl e ↦ inl e
              | inr starts ↦
                  let (rest, e) = (has_prefix_iff path (t ++ codes "/")).0 starts in
                  inr (rest, e ∙ append_assoc t (codes "/") rest)
            ],
          ),
      λ (filled, either). (prefix_tests path prefix).1 (
        filled,
        elim either [
          | inl e ↦ inl e
          | inr (rest, e) ↦ inr (
              (has_prefix_iff path (t ++ codes "/")).1
                (rest, e ∙ sym (append_assoc t (codes "/") rest)))
        ],
      ),
    )
