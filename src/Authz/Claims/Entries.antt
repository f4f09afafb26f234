-- ===== src/Authz/Claims/Entries.antt =====
-- The entries of a token's claims and the grants that they become, each way.
use mathlib.Core.List.{Memᴰ}
use mathlib.Core.List.Memᴰ
use maintainerd_sdk.Prelude.{
  ◌≡◌, refl, ap, ◌∙◌, ◌≢◌, ◌⊎◌, inl, inr, List, [], ◌∷◌, Option, none, some, Bool-cases,
}
use maintainerd_sdk.Text.{Bytes, ◌==◌, cut}
use maintainerd_sdk.Text.Laws.{eq_iff}
use maintainerd_sdk.Text.Space.{trim_space}
use maintainerd_sdk.Auth.{Any, str, arr, other, Anys, nil, cons}
use maintainerd_sdk.Authz.Grant.{Grant, parse_grant, parse_grants}
use maintainerd_sdk.Authz.Grant.Forms.{parse_bare}
use maintainerd_sdk.Authz.Claims.{permission_entries, permissions_claim}

-- The text is one of the values of an array.
abbrev pub IsItem : Bytes → Anys → Type 0
IsItem entry nil = ⊥
IsItem entry (cons (str s) vs) = (entry ≡ s) ⊎ IsItem entry vs
IsItem entry (cons (arr ws) vs) = IsItem entry vs
IsItem entry (cons other vs) = IsItem entry vs

permission_entries-IsItem : (vs : Anys) (e : Bytes) → Memᴰ e (permission_entries vs) → IsItem e vs
unfolding permission_entries
permission_entries-IsItem nil e m = elim m [ ]
permission_entries-IsItem (cons (arr ws) vs) e m = permission_entries-IsItem vs e m
permission_entries-IsItem (cons other vs) e m = permission_entries-IsItem vs e m
permission_entries-IsItem (cons (str s) vs) e m = elim (Bool-cases (trim_space s == [])) [
  | inl blank ↦ inr (permission_entries-IsItem vs e (rw blank at m))
  | inr filled ↦ elim (Memᴰ.cases_cons (rw filled at m)) [
    | inl here ↦ inl here
    | inr later ↦ inr (permission_entries-IsItem vs e later)
  ]
]

item_entry :
    (vs : Anys) (e : Bytes) → IsItem e vs → trim_space e ≢ [] → Memᴰ e (permission_entries vs)
unfolding permission_entries
item_entry nil e h n = absurd h
item_entry (cons (arr ws) vs) e h n = item_entry vs e h n
item_entry (cons other vs) e h n = item_entry vs e h n
item_entry (cons (str s) vs) e (inl here) n = elim (Bool-cases (trim_space s == [])) [
  | inl blank ↦ absurd (n (ap trim_space here ∙ (eq_iff (trim_space s) []).0 blank))
  | inr filled ↦ rw filled (Memᴰ.head here)
]
item_entry (cons (str s) vs) e (inr h) n = elim (Bool-cases (trim_space s == [])) [
  | inl blank ↦ rw blank (item_entry vs e h n)
  | inr filled ↦ rw filled (Memᴰ.tail (item_entry vs e h n))
]

-- An entry of white space grants no action.
pub blank_action : (e : Bytes) → trim_space e ≡ [] → (parse_grant e).action ≡ []
unfolding cut
blank_action e h = ap (λ (g : Grant). g.action) (parse_bare e (ap (cut b'=') h)) ∙ h

pub grant_entry :
    (raw : List Bytes) (g : Grant)
    → Memᴰ g (parse_grants raw)
    → (e : Bytes) × Memᴰ e raw × (g ≡ parse_grant e)
unfolding parse_grants
grant_entry [] g m = elim m [ ]
grant_entry (s ∷ raw) g m =
    let later : Memᴰ g (parse_grants raw) → (e : Bytes) × Memᴰ e (s ∷ raw) × (g ≡ parse_grant e) =
      λ old. (let (e, at, same) = grant_entry raw g old in (e, Memᴰ.tail at, same)) in
    elim (Bool-cases ((parse_grant s).action == [])) [
      | inl none_named ↦ later (rw none_named at m)
      | inr named ↦ elim (Memᴰ.cases_cons (rw named at m)) [
        | inl here ↦ (s, Memᴰ.head refl, here)
        | inr old ↦ later old
      ]
    ]

pub entry_grant :
    (raw : List Bytes) (e : Bytes)
    → Memᴰ e raw
    → (parse_grant e).action ≢ []
    → Memᴰ (parse_grant e) (parse_grants raw)
unfolding parse_grants
entry_grant [] e m n = elim m [ ]
entry_grant (s ∷ raw) e m n = elim (Bool-cases ((parse_grant s).action == [])) [
  | inl none_named ↦ elim (Memᴰ.cases_cons m) [
    | inl here ↦ absurd (
        n (ap (λ t. (parse_grant t).action) here ∙ (eq_iff (parse_grant s).action []).0 none_named))
    | inr old ↦ rw none_named (entry_grant raw e old n)
  ]
  | inr named ↦ elim (Memᴰ.cases_cons m) [
    | inl here ↦ rw named (Memᴰ.head (ap parse_grant here))
    | inr old ↦ rw named (Memᴰ.tail (entry_grant raw e old n))
  ]
]

pub permissions_claim-IsItem :
    (v : Option Any) (e : Bytes)
    → Memᴰ e (permissions_claim v)
    → (vs : Anys) × (v ≡ some (arr vs)) × IsItem e vs
unfolding permissions_claim
permissions_claim-IsItem none e m = elim m [ ]
permissions_claim-IsItem (some (str s)) e m = elim m [ ]
permissions_claim-IsItem (some (arr vs)) e m = (vs, refl, permission_entries-IsItem vs e m)
permissions_claim-IsItem (some other) e m = elim m [ ]

pub item_claim :
    (v : Option Any) (e : Bytes) (vs : Anys)
    → v ≡ some (arr vs)
    → IsItem e vs
    → trim_space e ≢ []
    → Memᴰ e (permissions_claim v)
unfolding permissions_claim
item_claim v e vs at h n = rw at (item_entry vs e h n)
