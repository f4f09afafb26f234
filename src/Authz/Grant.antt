-- ===== src/Authz/Grant.antt =====
-- authz/authz.go, the grant grammar: `action` or `action=pattern`, one entry of a token's claim.
pub mod Forms
use maintainerd_sdk.Prelude.{List, [], ◌∷◌, ◌++◌, none, some, if◌then◌else◌}
use maintainerd_sdk.Text.{Bytes, codes, ◌==◌, cut}
use maintainerd_sdk.Text.Space.{trim_space}

abbrev pub wildcard_action : Bytes
wildcard_action = codes "*"

-- An empty `resource` is service-wide.
pub record Grant : Type 0 where
  pub action : Bytes
  pub resource : Bytes

-- The text is cut at its first `=` only.
unfoldable pub parse_grant : Bytes → Grant
parse_grant raw =
    let raw' = trim_space raw in
    elim (cut b'=' raw') [
      | none ↦ record { action = raw'; resource = [] }
      | some (a, b) ↦ record { action = trim_space a; resource = trim_space b }
    ]

unfoldable pub parse_grants : List Bytes → List Grant
parse_grants [] = []
parse_grants (s ∷ raw) =
    let out = parse_grants raw in let g = parse_grant s in if g.action == [] then out else g ∷ out

unfoldable pub grant_to_string : Grant → Bytes
grant_to_string g = if g.resource == [] then g.action else g.action ++ b'=' ∷ g.resource
