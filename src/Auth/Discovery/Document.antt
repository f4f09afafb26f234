-- ===== src/Auth/Discovery/Document.antt =====
-- Which document `Discover` reads, and when it returns one.
use mathlib.Core.List.{reverse-append, reverse-reverse}
use mathlib.Core.Path.{subst}
use maintainerd_sdk.Prelude.{
  ℕ, ◌≡◌, refl, sym, ap, ◌∙◌, ◌≢◌, ◌↔◌, inl, inr, false, [], ◌∷◌, ◌++◌, reverse, arith, ok, err,
  Bool-cases, byte_eq, All, All-append,
}
use maintainerd_sdk.Text.{Bytes, ◌==◌}
use maintainerd_sdk.Text.Laws.{eq_iff}
use maintainerd_sdk.Text.Space.{trim_space}
use maintainerd_sdk.Auth.Discovery.{
  Provider, Answer, unbuilt, unsent, answered, well_known, drop_slashes, trim_right_slashes,
  discovery_url, read_document, discover,
}

abbrev IsSlashes : Bytes → Type 0
IsSlashes = All (λ c. c ≡ b'/')

-- The issuer is the base and slashes, and the base ends in none.
pub record IsBase (base issuer : Bytes) : Type 0 where
  pub slashes : Bytes
  pub only : All (λ c. c ≡ b'/') slashes
  pub spelled : issuer ≡ base ++ slashes
  pub bare : (rest : Bytes) → base ≢ rest ++ b'/' ∷ []

drop_rest : (s : Bytes) → (p : Bytes) × IsSlashes p × (s ≡ p ++ drop_slashes s)
unfolding drop_slashes
drop_rest [] = ([], tt, refl)
drop_rest (c ∷ s) = elim (Bool-cases (byte_eq c b'/')) [
  | inl slash ↦
      let (p, only, e) = drop_rest s in rw slash (c ∷ p, (ground arith, only), ap (◌∷◌ c) e)
  | inr other ↦ rw other ([], tt, refl)
]

drop_done : (s rest : Bytes) → drop_slashes s ≢ b'/' ∷ rest
unfolding drop_slashes
drop_done [] rest h = absurd (cc)
drop_done (c ∷ s) rest h = elim (Bool-cases (byte_eq c b'/')) [
  | inl slash ↦ drop_done s rest (rw slash at h)
  | inr other ↦ absurd (ground arith)
]

drop-append : (p s : Bytes) → IsSlashes p → drop_slashes (p ++ s) ≡ drop_slashes s
unfolding drop_slashes
drop-append [] s h = refl
drop-append (c ∷ p) s (e, h) = ground (arith, drop-append p s h)

drop_fixed : (s : Bytes) → ((rest : Bytes) → s ≢ b'/' ∷ rest) → drop_slashes s ≡ s
unfolding drop_slashes
drop_fixed [] h = refl
drop_fixed (c ∷ s) h = elim (Bool-cases (byte_eq c b'/')) [
  | inl slash ↦ let e : c ≡ b'/' = ground arith in absurd (h s (ap (λ d. d ∷ s) e))
  | inr other ↦ rw other refl
]

reverse-cons : (c : ℕ) (s : Bytes) → reverse (c ∷ s) ≡ reverse s ++ c ∷ []
reverse-cons c s = reverse-append (c ∷ []) s

reverse-IsSlashes : (p : Bytes) → IsSlashes p → IsSlashes (reverse p)
reverse-IsSlashes [] h = tt
reverse-IsSlashes (c ∷ p) (e, h) =
    subst IsSlashes (sym (reverse-cons c p))
      (All-append (λ c. c ≡ b'/') (reverse p) (c ∷ []) (reverse-IsSlashes p h) (e, tt))

trim-IsBase : (s : Bytes) → IsBase (trim_right_slashes s) s
unfolding trim_right_slashes
trim-IsBase s =
    let (p, only, e) = drop_rest (reverse s) in
    let d = drop_slashes (reverse s) in
    record {
      slashes = reverse p;
      only = reverse-IsSlashes p only;
      spelled = sym (reverse-reverse s) ∙ ap reverse e ∙ reverse-append p d;
      bare = λ rest h.
          drop_done (reverse s) (reverse rest)
            (sym (reverse-reverse d) ∙ ap reverse h ∙ reverse-append rest (b'/' ∷ []));
    }

trim_base : (base issuer : Bytes) → IsBase base issuer → trim_right_slashes issuer ≡ base
unfolding trim_right_slashes
trim_base base issuer b =
    let back : reverse issuer ≡ reverse b.slashes ++ reverse base =
      ap reverse b.spelled ∙ reverse-append base b.slashes in
    let kept : drop_slashes (reverse base) ≡ reverse base = drop_fixed (reverse base) (λ rest h.
      b.bare (reverse rest) (sym (reverse-reverse base) ∙ ap reverse h ∙ reverse-cons b'/' rest)) in
    ap (λ t. reverse (drop_slashes t)) back
    ∙ ap reverse
        (drop-append (reverse b.slashes) (reverse base) (reverse-IsSlashes b.slashes b.only) ∙ kept)
    ∙ reverse-reverse base

-- The document was answered with status 200, at the well-known path under the issuer's base.
pub record IsFound (get : Bytes → Answer) (issuer : Bytes) (p : Provider) : Type 0 where
  pub named : trim_space issuer ≢ []
  pub base : Bytes
  pub under : IsBase base issuer
  pub document : get (base ++ well_known) ≡ answered 200 (ok p)

found_by :
    (get : Bytes → Answer) (issuer : Bytes) (p : Provider) (x : Answer)
    → get (discovery_url issuer) ≡ x
    → discover get issuer ≡ ok p
    → (trim_space issuer ≢ []) × (x ≡ answered 200 (ok p))
unfolding discover read_document
found_by get issuer p (unbuilt e) at h = absurd (ground arith)
found_by get issuer p (unsent e) at h = absurd (ground arith)
found_by get issuer p (answered status (err e)) at h = absurd (ground arith)
found_by get issuer p (answered status (ok q)) at h =
    (ground (arith, eq_iff (trim_space issuer) []), ground arith)

IsFound-sound :
    (get : Bytes → Answer) (issuer : Bytes) (p : Provider)
    → discover get issuer ≡ ok p
    → IsFound get issuer p
IsFound-sound get issuer p h =
    let (named, at) = found_by get issuer p (get (discovery_url issuer)) refl h in
    record {
      named = named;
      base = trim_right_slashes issuer;
      under = trim-IsBase issuer;
      document = unfold discovery_url in at;
    }

IsFound-complete :
    (get : Bytes → Answer) (issuer : Bytes) (p : Provider)
    → IsFound get issuer p
    → discover get issuer ≡ ok p
unfolding discover read_document
IsFound-complete get issuer p f =
    let url : discovery_url issuer ≡ f.base ++ well_known =
      unfold discovery_url in ap (λ b. b ++ well_known) (trim_base f.base issuer f.under) in
    let at : get (discovery_url issuer) ≡ answered 200 (ok p) = ap get url ∙ f.document in
    let named : (trim_space issuer == []) ≡ false =
      ground (arith, eq_iff (trim_space issuer) [], f.named) in
    rw (named, at) refl

-- `Discover` returns a provider exactly if the issuer is not blank and a GET answers with status
-- 200 and that provider's document; it asks at the well-known path behind the issuer without its
-- trailing slashes, however many there are.
pub discover-IsFound_iff :
    (get : Bytes → Answer) (issuer : Bytes) (p : Provider)
    → (discover get issuer ≡ ok p) ↔ IsFound get issuer p
discover-IsFound_iff get issuer p = (IsFound-sound get issuer p, IsFound-complete get issuer p)
