-- ===== src/Authz/Principal/Entitlement.antt =====
-- What a principal is entitled to, by its grants and with no reference to the loops that decide it.
use mathlib.Core.List.{Memᴰ}
use maintainerd_sdk.Prelude.{◌≡◌, ◌≢◌, ◌⊎◌, [], ok, elements}
use maintainerd_sdk.Text.{Bytes, Unicode}
use maintainerd_sdk.Mrn.{Mrn, Pattern, parse_pattern}
use maintainerd_sdk.Mrn.Grammar.{Covers}
use maintainerd_sdk.Authz.Grant.{Grant, wildcard_action}
use maintainerd_sdk.Authz.Principal.{Principal}

-- A granted action covers itself; the wildcard and the service's blanket actions cover every one.
abbrev pub ActionCovers : Principal → Bytes → Bytes → Type 0
ActionCovers p granted required =
    (granted ≡ required)
    ⊎ ((granted ≡ wildcard_action) ⊎ ((granted ≢ []) × Memᴰ granted (elements p.blanket_actions)))

module _ ⦃u : Unicode⦄ where
  -- A grant with no resource reaches every target; one with a resource reaches what its pattern
  -- covers, and nothing if the pattern does not parse.
  abbrev pub Reaches : Grant → Mrn → Type 0
  Reaches g target =
      (g.resource ≡ []) ⊎ ((p : Pattern) × (parse_pattern g.resource ≡ ok p) × Covers p target)

  pub record Entitles (p : Principal) (action : Bytes) (target : Mrn) : Type 0 where
    pub grant : Grant
    pub held : Memᴰ grant p.grants
    pub covers : ActionCovers p grant.action action
    pub reaches : Reaches grant target
