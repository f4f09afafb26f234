-- ===== src/Authz/Surface.antt =====
-- authz/permissions.go: surfaces, the class of caller that a surface accepts, and the keys by which
-- the permission table is asked.
pub mod Keys
pub mod Slashes
use maintainerd_sdk.Prelude.{
  ℕ, Bool, true, false, not, List, [], ◌∷◌, ◌++◌, reverse, Option, none, some, byte_eq,
  if◌then◌else◌,
}
use maintainerd_sdk.Text.{
  Bytes, codes, ◌==◌, has_prefix, trim_prefix, trim_suffix, cut, to_upper, Unicode,
}
use maintainerd_sdk.Text.Space.{trim_space}
use maintainerd_sdk.Authz.Principal.{actor_kind_user, actor_kind_service}

-- One request: the HTTP fields or `full_method` are empty.
pub record Surface : Type 0 where
  pub path : Bytes
  pub http_method : Bytes
  pub full_method : Bytes

unfoldable pub is_grpc : Surface → Bool
is_grpc s = not (s.full_method == [])

-- `type Actor uint8` with its three constants; any other value counts as `actor_any`.
abbrev pub Actor : Type 0
Actor = ℕ

abbrev pub actor_any : Actor
actor_any = 0

abbrev pub actor_user_only : Actor
actor_user_only = 1

abbrev pub actor_service_only : Actor
actor_service_only = 2

unfoldable pub actor_to_string : Actor → Bytes
actor_to_string a =
    if byte_eq a actor_user_only
    then codes "user-only"
    else if byte_eq a actor_service_only
    then codes "service-only"
    else codes "any"

unfoldable pub actor_permits : Actor → Bytes → Bool
actor_permits a kind =
    if byte_eq a actor_user_only
    then kind == actor_kind_user
    else if byte_eq a actor_service_only
    then kind == actor_kind_service
    else true

pub record Rule : Type 0 where
  pub permission : Bytes
  pub actor : Actor

pub record Perms : Type 0 where
  pub read : Bytes
  pub write : Bytes
  pub read_actor : Actor
  pub write_actor : Actor

-- The loop of `trimTrailingSlash`, over the path from its end.
unfoldable pub trim_slashes : Bytes → Bytes
trim_slashes [] = []
trim_slashes (c ∷ []) = c ∷ []
trim_slashes (c ∷ d ∷ s) = if byte_eq c b'/' then trim_slashes (d ∷ s) else c ∷ d ∷ s

unfoldable pub trim_trailing_slash : Bytes → Bytes
trim_trailing_slash path = reverse (trim_slashes (reverse path))

module _ ⦃u : Unicode⦄ where
  unfoldable pub exact_key : Bytes → Bytes → Bytes
  exact_key method path = to_upper (trim_space method) ++ (codes " " ++ trim_trailing_slash path)

-- The text before the first slash, or the whole text.
abbrev pub before_slash : Bytes → Bytes
before_slash path = elim (cut b'/' path) [ none ↦ path | some (a, b) ↦ a ]

unfoldable pub first_segment : Bytes → Bytes → Bytes
first_segment prefix path =
    if not (prefix == [])
    then (if not (has_prefix path prefix) then [] else before_slash (trim_prefix path prefix))
    else before_slash (trim_prefix path (codes "/"))

unfoldable pub path_has_prefix : Bytes → Bytes → Bool
path_has_prefix path prefix =
    if prefix == []
    then false
    else (let trimmed = trim_suffix prefix (codes "/") in
        if path == trimmed then true else has_prefix path (trimmed ++ codes "/"))
