-- ===== src/Authz/Principal/Actions.antt =====
-- `HasAction` and the loop over blanket actions: which actions a principal's grants cover.
use mathlib.Core.List.{Memᴰ}
use maintainerd_sdk.Prelude.{
  ◌≡◌, refl, sym, ap, ◌∙◌, ◌≢◌, ◌↔◌, inl, inr, true, not, ◌&&◌, List, [], ◌∷◌, some, arith,
  elements, Bool-cases,
}
use maintainerd_sdk.Text.{Bytes, ◌==◌}
use maintainerd_sdk.Text.Laws.{eq_iff}
use maintainerd_sdk.Authz.Grant.{Grant, wildcard_action}
use maintainerd_sdk.Authz.Principal.{Principal, is_blanket, action_covers, any_covers, has_action}
use maintainerd_sdk.Authz.Principal.Entitlement.{ActionCovers}

is_blanket_sound :
    (xs : List Bytes) (granted : Bytes)
    → is_blanket xs granted ≡ true
    → (granted ≢ []) × Memᴰ granted xs
unfolding is_blanket
is_blanket_sound [] granted h = cc
is_blanket_sound (b ∷ xs) granted h = elim (Bool-cases (not (b == []) && granted == b)) [
  | inl here ↦
      (ground (arith, eq_iff b [], eq_iff granted b), Memᴰ.head (ground (arith, eq_iff granted b)))
  | inr later ↦
      let (filled, m) = is_blanket_sound xs granted (ground arith) in (filled, Memᴰ.tail m)
]

is_blanket_complete :
    (granted : Bytes) {xs : List Bytes}
    → granted ≢ []
    → Memᴰ granted xs
    → is_blanket xs granted ≡ true
unfolding is_blanket
is_blanket_complete granted filled (Memᴰ.head {x} {xs} e) =
    ground (arith, eq_iff x [], eq_iff granted x)
is_blanket_complete granted filled (Memᴰ.tail {x} {xs} m) =
    ground (arith, is_blanket_complete granted filled m)

is_blanket_iff :
    (xs : List Bytes) (granted : Bytes)
    → (is_blanket xs granted ≡ true) ↔ ((granted ≢ []) × Memᴰ granted xs)
is_blanket_iff xs granted =
    (is_blanket_sound xs granted, λ (filled, m). is_blanket_complete granted filled m)

pub action_covers_iff :
    (p : Principal) (granted required : Bytes)
    → (action_covers p granted required ≡ true) ↔ ActionCovers p granted required
unfolding action_covers
action_covers_iff p granted required = ground (
  arith,
  eq_iff granted required,
  eq_iff granted wildcard_action,
  is_blanket_iff (elements p.blanket_actions) granted,
)

module _ (p : Principal) (action : Bytes) where
  any_covers_sound :
      (gs : List Grant)
      → any_covers p action gs ≡ true
      → (g : Grant) × Memᴰ g gs × ActionCovers p g.action action
  unfolding any_covers
  any_covers_sound [] h = cc
  any_covers_sound (g ∷ gs) h = elim (Bool-cases (action_covers p g.action action)) [
    | inl covers ↦ (g, Memᴰ.head refl, (action_covers_iff p g.action action).0 covers)
    | inr misses ↦ let (g', m, c) = any_covers_sound gs (ground arith) in (g', Memᴰ.tail m, c)
  ]

  any_covers_complete :
      (g : Grant) {gs : List Grant}
      → Memᴰ g gs
      → ActionCovers p g.action action
      → any_covers p action gs ≡ true
  unfolding any_covers
  any_covers_complete g (Memᴰ.head {x} {xs} e) c =
      let covered : action_covers p x.action action ≡ true =
        ap (λ (y : Grant). action_covers p y.action action) (sym e)
        ∙ (action_covers_iff p g.action action).1 c in
      ground arith
  any_covers_complete g (Memᴰ.tail {x} {xs} m) c = ground (arith, any_covers_complete g m c)

-- `HasAction` holds exactly if some grant covers the action, wherever it reaches.
pub has_action_iff :
    (p : Principal) (action : Bytes)
    → (has_action (some p) action ≡ true)
      ↔ ((action ≢ []) × ((g : Grant) × Memᴰ g p.grants × ActionCovers p g.action action))
unfolding has_action
has_action_iff p action = elim (Bool-cases (action == [])) [
  | inl nothing ↦
      (λ h. absurd (ground arith), λ (named, _). absurd (named ((eq_iff action []).0 nothing)))
  | inr named ↦ (
    λ h. (ground (arith, eq_iff action []), any_covers_sound p action p.grants (ground arith)),
    λ (named, (g, m, c)). ground (arith, eq_iff action [], any_covers_complete p action g m c),
  )
]
