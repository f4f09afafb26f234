-- ===== src/Authz/Guard/Exempt.antt =====
-- Which requests pass the guard with no caller at all.
use mathlib.Core.List.{Memᴰ}
use mathlib.Core.Path.{subst}
use maintainerd_sdk.Prelude.{
  ◌≡◌, refl, sym, ◌≢◌, ◌⊎◌, ◌↔◌, inl, inr, Bool, true, not, List, [], ◌∷◌, ◌++◌, none, some, arith,
  Bool-cases, Option-cases, if◌then◌else◌,
}
use maintainerd_sdk.Text.{Bytes, codes, ◌==◌, trim_suffix, Unicode}
use maintainerd_sdk.Text.Laws.{eq_iff}
use maintainerd_sdk.Authz.Surface.{Surface, is_grpc, path_has_prefix}
use maintainerd_sdk.Authz.Surface.Keys.{path_has_prefix_iff}
use maintainerd_sdk.Authz.Permissions.{Map, exempt_method, exempt_path, is_exempt}
use maintainerd_sdk.Authz.Guard.{Guard, Context, check}
use maintainerd_sdk.Authz.Guard.Admission.{check-exempt_iff}

-- The path is the prefix less one trailing slash, or continues that behind a slash.
abbrev pub IsUnder : Bytes → Bytes → Type 0
IsUnder prefix path =
    (prefix ≢ [])
    × ((path ≡ trim_suffix prefix (codes "/"))
        ⊎ ((rest : Bytes) × (path ≡ trim_suffix prefix (codes "/") ++ b'/' ∷ rest)))

-- The service's own predicate exempts the surface; or it is a gRPC method that is listed; or it is an
-- HTTP path under a prefix that is listed.
pub data IsExempt (m : Map) (s : Surface) : Type 0 where
  by_predicate : (exempt : Surface → Bool) → m.exempt ≡ some exempt → exempt s ≡ true → IsExempt m s
  by_method : s.full_method ≢ [] → Memᴰ s.full_method m.exempt_methods → IsExempt m s
  by_path :
      s.full_method ≡ []
      → (prefix : Bytes) → Memᴰ prefix m.exempt_paths
      → IsUnder prefix s.path
      → IsExempt m s

module _ (x : Bytes) where
  method_sound : (ms : List Bytes) → exempt_method ms x ≡ true → Memᴰ x ms
  unfolding exempt_method
  method_sound [] h = absurd (ground arith)
  method_sound (m ∷ ms) h = elim (Bool-cases (m == x)) [
    | inl same ↦ Memᴰ.head (sym ((eq_iff m x).0 same))
    | inr differs ↦ Memᴰ.tail (method_sound ms (ground arith))
  ]

  method_complete : {ms : List Bytes} → x ≢ [] → Memᴰ x ms → exempt_method ms x ≡ true
  unfolding exempt_method
  method_complete n (Memᴰ.head {x = m} e) = ground (arith, eq_iff m x, eq_iff m [])
  method_complete n (Memᴰ.tail {x = m} at) = ground (arith, method_complete n at)

module _ (path : Bytes) where
  abbrev UnderOne : List Bytes → Type 0
  UnderOne ps = (prefix : Bytes) × Memᴰ prefix ps × IsUnder prefix path

  path_sound : (ps : List Bytes) → exempt_path ps path ≡ true → UnderOne ps
  unfolding exempt_path
  path_sound [] h = absurd (ground arith)
  path_sound (p ∷ ps) h = elim (Bool-cases (path_has_prefix path p)) [
    | inl under ↦ (p, Memᴰ.head refl, (path_has_prefix_iff path p).0 under)
    | inr beside ↦ let (q, at, under) = path_sound ps (ground arith) in (q, Memᴰ.tail at, under)
  ]

  path_complete :
      (q : Bytes) {ps : List Bytes} → Memᴰ q ps → IsUnder q path → exempt_path ps path ≡ true
  unfolding exempt_path
  path_complete q (Memᴰ.head {x = p} e) under =
      let here = (path_has_prefix_iff path p).1 (subst (λ r. IsUnder r path) e under) in
      ground arith
  path_complete q (Memᴰ.tail {x = p} at) under = ground (arith, path_complete q at under)

module _ (m : Map) (s : Surface) where
  is_exempt-IsExempt : is_exempt m s ≡ true → IsExempt m s
  unfolding is_exempt is_grpc
  is_exempt-IsExempt h = elim (Option-cases m.exempt) [
    | inl no_predicate ↦ listed (rw no_predicate at h)
    | inr (exempt, there) ↦ elim (Bool-cases (exempt s)) [
      | inl says ↦ IsExempt.by_predicate exempt there says
      | inr denies ↦ listed (ground arith)
    ]
  ]
    where
      listed :
          (if not (s.full_method == [])
              then exempt_method m.exempt_methods s.full_method
              else exempt_path m.exempt_paths s.path)
            ≡ true
          → IsExempt m s
      listed h = elim (Bool-cases (s.full_method == [])) [
        | inl http ↦
            let (q, at, under) = path_sound s.path m.exempt_paths (rw http at h) in
            IsExempt.by_path ((eq_iff s.full_method []).0 http) q at under
        | inr grpc ↦
            IsExempt.by_method (ground (arith, eq_iff s.full_method []))
              (method_sound s.full_method m.exempt_methods (rw grpc at h))
      ]

  IsExempt-is_exempt : IsExempt m s → is_exempt m s ≡ true
  unfolding is_exempt is_grpc
  IsExempt-is_exempt (IsExempt.by_predicate exempt there says) = rw (there, says) refl
  IsExempt-is_exempt (IsExempt.by_method named at) =
      ground (arith, eq_iff s.full_method [], method_complete s.full_method named at)
  IsExempt-is_exempt (IsExempt.by_path http q at under) =
      ground (arith, eq_iff s.full_method [], path_complete s.path q at under)

-- A request passes the guard with no caller exactly if the service's own predicate exempts it, or
-- it is a gRPC method that the table lists, or it is an HTTP path that is one of the listed
-- prefixes or lies beneath one behind a slash: never a longer neighbour, and never by an empty
-- entry.
pub check-IsExempt_iff :
    ⦃u : Unicode⦄ (g : Guard) (ctx : Context) (s : Surface) (token : Bytes)
    → (check g ctx token s ≡ (none, none)) ↔ IsExempt g.permissions s
check-IsExempt_iff g ctx s token =
    let (passes, let_through) = check-exempt_iff g ctx s token in
    (
      λ h. is_exempt-IsExempt g.permissions s (passes h),
      λ e. let_through (IsExempt-is_exempt g.permissions s e),
    )
