-- ===== src/Authz/Grant/Forms.antt =====
-- Grants and their claim form: which grants a text can spell, and which texts spell an open grant.
use mathlib.Core.Path.{subst}
use maintainerd_sdk.Prelude.{
  ℕ, ◌≡◌, sym, ap, ◌∙◌, ◌≢◌, ◌↔◌, ◌⊎◌, inl, inr, true, false, [], ◌∷◌, ◌++◌, some, none, arith,
  Bool-cases, Option-cases, All-left, All-right,
}
use maintainerd_sdk.Text.{Bytes, ◌==◌, cut}
use maintainerd_sdk.Text.Laws.{eq_iff, Lacks}
use maintainerd_sdk.Text.Search.{cut-append, cut_sound, cut-none_iff}
use maintainerd_sdk.Text.Space.{trim_space, trim_left, trim_right, skip}
use maintainerd_sdk.Text.Space.Trim.{
  IsTrimmed, trim_space-IsTrimmed, trim_space_fixed, trim_space_part, equals-IsTrimmed,
}
use maintainerd_sdk.Authz.Grant.{Grant, parse_grant, grant_to_string}

-- An action with no `=` in it, and an action and a resource with no white space at their ends.
pub record IsGrant (g : Grant) : Type 0 where
  pub action : IsTrimmed g.action
  pub resource : IsTrimmed g.resource
  pub separated : Lacks b'=' g.action

nil-IsTrimmed : IsTrimmed []
unfolding trim_space trim_right skip trim_left
nil-IsTrimmed = trim_space-IsTrimmed []

pub parse_bare :
    (raw : Bytes)
    → cut b'=' (trim_space raw) ≡ none
    → parse_grant raw ≡ record { action = trim_space raw; resource = [] }
unfolding parse_grant
parse_bare raw h = ground arith

parse_narrowed :
    (raw a b : Bytes)
    → cut b'=' (trim_space raw) ≡ some (a, b)
    → parse_grant raw ≡ record { action = trim_space a; resource = trim_space b }
unfolding parse_grant
parse_narrowed raw a b h = ground arith

-- A part of a text without a byte lacks that byte.
Lacks-part : (c : ℕ) (s : Bytes) → Lacks c s → Lacks c (trim_space s)
Lacks-part c s h =
    let (p, q, e) = trim_space_part s in
    All-left (λ d. d ≢ c) (trim_space s) q
      (All-right (λ d. d ≢ c) p (trim_space s ++ q) (subst (Lacks c) e h))

pub parse_grant-IsGrant : (raw : Bytes) → IsGrant (parse_grant raw)
parse_grant-IsGrant raw = elim (Option-cases (cut b'=' (trim_space raw))) [
  | inl none_cut ↦ subst IsGrant (sym (parse_bare raw none_cut)) (record {
    action = trim_space-IsTrimmed raw;
    resource = nil-IsTrimmed;
    separated = (cut-none_iff b'=' (trim_space raw)).0 none_cut;
  })
  | inr ((a, b), found) ↦ subst IsGrant (sym (parse_narrowed raw a b found)) (record {
    action = trim_space-IsTrimmed a;
    resource = trim_space-IsTrimmed b;
    separated = Lacks-part b'=' a ((cut_sound b'=' (trim_space raw) a b found).1);
  })
]

parse_equals :
    (a b : Bytes)
    → IsTrimmed a
    → IsTrimmed b
    → Lacks b'=' a
    → parse_grant (a ++ b'=' ∷ b) ≡ record { action = a; resource = b }
parse_equals a b ta tb h =
    let fixed = trim_space_fixed (a ++ b'=' ∷ b) (equals-IsTrimmed a b ta tb) in
    parse_narrowed (a ++ b'=' ∷ b) a b (ap (cut b'=') fixed ∙ cut-append b'=' a b h)
    ∙ (λ i. record { action = trim_space_fixed a ta i; resource = trim_space_fixed b tb i })

parse_action :
    (a : Bytes) → IsTrimmed a → Lacks b'=' a → parse_grant a ≡ record { action = a; resource = [] }
parse_action a ta h =
    let fixed = trim_space_fixed a ta in
    parse_bare a (ap (cut b'=') fixed ∙ (cut-none_iff b'=' a).1 h)
    ∙ (λ i. record { action = fixed i; resource = [] })

-- An action alone, and one with an equals sign and nothing behind it, spell the same open grant.
pub parse_open :
    (a entry : Bytes)
    → IsTrimmed a
    → Lacks b'=' a
    → (entry ≡ a) ⊎ (entry ≡ a ++ b'=' ∷ [])
    → parse_grant entry ≡ record { action = a; resource = [] }
parse_open a entry ta h (inl e) = ap parse_grant e ∙ parse_action a ta h
parse_open a entry ta h (inr e) = ap parse_grant e ∙ parse_equals a [] ta nil-IsTrimmed h

bare_form : (g : Grant) → (g.resource == []) ≡ true → grant_to_string g ≡ g.action
unfolding grant_to_string
bare_form g h = ground arith

narrowed_form :
    (g : Grant) → (g.resource == []) ≡ false → grant_to_string g ≡ g.action ++ b'=' ∷ g.resource
unfolding grant_to_string
narrowed_form g h = ground arith

reparse : (g : Grant) → IsGrant g → parse_grant (grant_to_string g) ≡ g
reparse g w = elim (Bool-cases (g.resource == [])) [
  | inl bare ↦
      let no_resource = (eq_iff g.resource []).0 bare in
      ap parse_grant (bare_form g bare)
      ∙ parse_action g.action w.action w.separated
      ∙ (λ i. record { action = g.action; resource = sym no_resource i })
  | inr narrowed ↦
      ap parse_grant (narrowed_form g narrowed)
      ∙ parse_equals g.action g.resource w.action w.resource w.separated
]

-- A grant survives being written as a claim entry and read back exactly if its action and its
-- resource have no white space at their ends and its action no equals sign.
pub parse_grant-grant_to_string_iff :
    (g : Grant) → (parse_grant (grant_to_string g) ≡ g) ↔ IsGrant g
parse_grant-grant_to_string_iff g =
    (λ e. subst IsGrant e (parse_grant-IsGrant (grant_to_string g)), reparse g)
