-- ===== src/Authz/Guard/Slashes.antt =====
-- `Guard.Check` on a path with slashes behind it, where the service's own functions and its exempt
-- prefixes do not tell these apart.
use maintainerd_sdk.Prelude.{
  ℕ, zero, suc, ◌≡◌, refl, ap, ◌∙◌, ◌≢◌, inl, inr, Bool, List, [], ◌∷◌, ◌++◌, none, some, All,
  Option-cases, if◌then◌else◌, arith, not, ok, err,
}
use maintainerd_sdk.Text.{Bytes, ◌==◌, Unicode}
use maintainerd_sdk.Text.Maps.{lookup}
use maintainerd_sdk.Authz.Principal.{Principal}
use maintainerd_sdk.Authz.Surface.{Surface, is_grpc, actor_permits}
use maintainerd_sdk.Authz.Surface.Keys.{exact_key_spellings}
use maintainerd_sdk.Authz.Surface.Slashes.{
  slash, EndsTwice, path_has_prefix-slash, first_segment-slash,
}
use maintainerd_sdk.Authz.Permissions.{
  find_route_key, pair_rule, resolve_method, resolve_route, resolve, exempt_path, is_exempt,
}
use maintainerd_sdk.Authz.Guard.{
  Mode, enforced, dev_open, unavailable, unnamed, Guard, Context, resolve_target, unmapped_message,
  actor_message, admit, deny, forbidden, deny_unmapped_surface, deny_actor_kind, no_verifier,
  missing_token, invalid_token, with_blanket, check_permission, check_surface, check_token,
  check_mode, check,
}

-- The surface with one slash more behind its path.
abbrev pub slashed : Surface → Surface
slashed s = record s { path = s.path ++ slash }

-- The surface with a number of slashes more behind its path.
abbrev pub slashed_by : ℕ → Surface → Surface
slashed_by zero s = s
slashed_by (suc n) s = slashed_by n (slashed s)

-- The functions that a service plugs in give the same for both, and no exempt prefix ends in two
-- slashes.
pub record IsBlind (g : Guard) (ctx : Context) : Type 0 where
  pub predicate :
      (exempt : Surface → Bool)
      → g.permissions.exempt ≡ some exempt
      → (s : Surface) → exempt (slashed s) ≡ exempt s
  pub keys :
      (key : Surface → Bytes)
      → g.permissions.route_key ≡ some key
      → (s : Surface) → key (slashed s) ≡ key s
  pub targets :
      (s : Surface) → resolve_target g.resource ctx (slashed s) ≡ resolve_target g.resource ctx s
  pub entries : All (λ prefix. ¬ EndsTwice prefix) g.permissions.exempt_paths

exempt_path-slash :
    (prefixes : List Bytes) (path : Bytes)
    → All (λ prefix. ¬ EndsTwice prefix) prefixes
    → exempt_path prefixes (path ++ slash) ≡ exempt_path prefixes path
unfolding exempt_path
exempt_path-slash [] path h = refl
exempt_path-slash (prefix ∷ prefixes) path (once, h) =
    ground (arith, path_has_prefix-slash path prefix once, exempt_path-slash prefixes path h)

module _ (g : Guard) (ctx : Context) (blind : IsBlind g ctx) (s : Surface) where
  is_exempt-slashed : is_exempt g.permissions (slashed s) ≡ is_exempt g.permissions s
  unfolding is_exempt is_grpc
  is_exempt-slashed =
      let listed = exempt_path-slash g.permissions.exempt_paths s.path blind.entries in
      elim (Option-cases g.permissions.exempt) [
        | inl no_predicate ↦ rw (no_predicate, listed) refl
        | inr (exempt, there) ↦ rw (there, blind.predicate exempt there s, listed) refl
      ]

  find_route_key-slashed :
      s.path ≢ [] → find_route_key g.permissions (slashed s) ≡ find_route_key g.permissions s
  unfolding find_route_key
  find_route_key-slashed filled = elim (Option-cases g.permissions.route_key) [
    | inl by_segment ↦ rw by_segment (first_segment-slash g.permissions.prefix s.path filled)
    | inr (key, there) ↦ rw there (blind.keys key there s)
  ]

module _ ⦃u : Unicode⦄ (g : Guard) (ctx : Context) (blind : IsBlind g ctx) (s : Surface)
    (filled : s.path ≢ []) where
  route-slashed : resolve_route g.permissions (slashed s) ≡ resolve_route g.permissions s
  unfolding resolve_route
  route-slashed =
      let key = find_route_key-slashed g ctx blind s filled in
      λ i. elim (lookup (key i) g.permissions.routes) [
        | none ↦ none
        | some p ↦ some (pair_rule s.http_method p)
      ]

  resolve-slashed : resolve g.permissions (slashed s) ≡ resolve g.permissions s
  unfolding resolve is_grpc
  resolve-slashed =
      let found =
        ap (λ k. lookup k g.permissions.exact)
          (exact_key_spellings s.http_method s.path filled).0 in
      λ i.
        if is_grpc s
        then resolve_method g.permissions s.full_method
        else elim (found i) [ some r ↦ some r | none ↦ route-slashed i ]

  permission-slashed :
      (required : Bytes) (p : Principal)
      → check_permission g ctx (slashed s) required p ≡ check_permission g ctx s required p
  unfolding check_permission
  permission-slashed required p = rw (blind.targets s, check_permission) refl

  surface-slashed : (p : Principal) → check_surface g ctx (slashed s) p ≡ check_surface g ctx s p
  unfolding check_surface unmapped_message is_grpc
  surface-slashed p = λ i. elim (resolve-slashed i) [
    | none ↦ deny (forbidden deny_unmapped_surface (unmapped_message s))
    | some rule ↦
        if not (actor_permits rule.actor p.kind)
        then deny (forbidden deny_actor_kind (actor_message rule.actor))
        else if rule.permission == []
        then admit p
        else permission-slashed rule.permission p i
  ]

  token-slashed : (token : Bytes) → check_token g ctx token (slashed s) ≡ check_token g ctx token s
  unfolding check_token
  token-slashed token = λ i. elim g.verify [
    | none ↦ deny no_verifier
    | some verify ↦ if token == [] then deny missing_token else elim (verify ctx token) [
      | err e ↦ deny invalid_token
      | ok none ↦ deny invalid_token
      | ok (some p) ↦ surface-slashed (with_blanket g p) i
    ]
  ]

  mode-slashed :
      (mode : Mode) (token : Bytes)
      → check_mode g ctx mode token (slashed s) ≡ check_mode g ctx mode token s
  unfolding check_mode
  mode-slashed dev_open token = refl
  mode-slashed unavailable token = refl
  mode-slashed enforced token = token-slashed token
  mode-slashed (unnamed k) token = token-slashed token

  check-slashed : (token : Bytes) → check g ctx token (slashed s) ≡ check g ctx token s
  unfolding check
  check-slashed token =
      λ i. if is_exempt-slashed g ctx blind s i then (none, none) else mode-slashed g.mode token i

-- Slashes behind a path that is not empty, however many, change nothing about the verdict on a
-- request, as long as the functions that the service plugs in do not tell them apart and no exempt
-- prefix ends in two slashes.
pub check-slashed_by :
    ⦃u : Unicode⦄ (g : Guard) (ctx : Context) (n : ℕ) (s : Surface) (token : Bytes)
    → IsBlind g ctx
    → s.path ≢ []
    → check g ctx token (slashed_by n s) ≡ check g ctx token s
check-slashed_by g ctx zero s token blind filled = refl
check-slashed_by g ctx (suc n) s token blind filled =
    check-slashed_by g ctx n (slashed s) token blind (append-ne-nil s.path)
    ∙ check-slashed g ctx blind s filled token
  where
    append-ne-nil : (path : Bytes) → path ++ slash ≢ []
    append-ne-nil [] = ground arith
    append-ne-nil (c ∷ path) = ground arith
