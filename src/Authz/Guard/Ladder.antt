-- ===== src/Authz/Guard/Ladder.antt =====
-- The ladder of `Guard.Check` as relations: when it admits a caller, and when it refuses one.
use maintainerd_sdk.Prelude.{◌≡◌, ◌≢◌, true, false, [], ◌++◌, none, some, ok}
use maintainerd_sdk.Text.{Bytes, codes, Unicode}
use maintainerd_sdk.Authz.Principal.{Principal, allows, has_action}
use maintainerd_sdk.Authz.Surface.{Surface, Rule, actor_permits}
use maintainerd_sdk.Authz.Permissions.{resolve, is_exempt}
use maintainerd_sdk.Authz.Guard.{
  Mode, dev_open, unavailable, Denial, Guard, Context, VerifyFunc, no_verifier, missing_token,
  invalid_token, forbidden, unavailable_denial, unmapped_message, actor_message,
  deny_unmapped_surface, deny_actor_kind, deny_insufficient, resolve_target, with_blanket,
  dev_principal,
}

abbrev pub IsAuthenticating : Mode → Type 0
IsAuthenticating m = (m ≢ dev_open) × (m ≢ unavailable)

-- The token was presented and verified; `p` is its principal with the service's blanket actions.
pub record IsCaller (g : Guard) (ctx : Context) (token : Bytes) (p : Principal) : Type 0 where
  pub verifier : VerifyFunc
  pub configured : g.verify ≡ some verifier
  pub presented : token ≢ []
  pub verified_as : Principal
  pub verified : verifier ctx token ≡ ok (some verified_as)
  pub carries : p ≡ with_blanket g verified_as

module _ ⦃u : Unicode⦄ (g : Guard) (ctx : Context) (s : Surface) where
  -- The permission of a rule is held: on the target if the service resolves one, else at all.
  pub data IsPermitted (required : Bytes) (p : Principal) : Type 0 where
    open_rule : required ≡ [] → IsPermitted required p
    on_target :
        (target : Bytes)
        → resolve_target g.resource ctx s ≡ some target
        → allows (some p) required target ≡ true
        → IsPermitted required p
    by_action :
        resolve_target g.resource ctx s ≡ none
        → has_action (some p) required ≡ true
        → IsPermitted required p

  -- The message of an insufficient permission names the permission, and the target if there is one.
  pub data IsForbidden (required : Bytes) (p : Principal) (d : Denial) : Type 0 where
    on_target :
        (target : Bytes)
        → resolve_target g.resource ctx s ≡ some target
        → allows (some p) required target ≡ false
        → d
          ≡ forbidden deny_insufficient
              (codes "requires permission " ++ (required ++ (codes " on " ++ target)))
        → IsForbidden required p d
    by_action :
        resolve_target g.resource ctx s ≡ none
        → has_action (some p) required ≡ false
        → d ≡ forbidden deny_insufficient (codes "requires permission " ++ required)
        → IsForbidden required p d

  -- What admits a known caller: the surface is mapped, its class is accepted, the rule's permission
  -- is held.
  pub record Passes (p : Principal) : Type 0 where
    pub rule : Rule
    pub mapped : resolve g.permissions s ≡ some rule
    pub class : actor_permits rule.actor p.kind ≡ true
    pub permitted : IsPermitted rule.permission p

  -- What refuses a known caller, in the order of the checks.
  pub data Fails (p : Principal) (d : Denial) : Type 0 where
    unmapped :
        resolve g.permissions s ≡ none
        → d ≡ forbidden deny_unmapped_surface (unmapped_message s)
        → Fails p d
    wrong_class :
        (rule : Rule)
        → resolve g.permissions s ≡ some rule
        → actor_permits rule.actor p.kind ≡ false
        → d ≡ forbidden deny_actor_kind (actor_message rule.actor)
        → Fails p d
    insufficient :
        (rule : Rule)
        → resolve g.permissions s ≡ some rule
        → actor_permits rule.actor p.kind ≡ true
        → rule.permission ≢ []
        → IsForbidden rule.permission p d
        → Fails p d

  module _ (token : Bytes) where
    pub data Admits (p : Principal) : Type 0 where
      development :
          is_exempt g.permissions s ≡ false → g.mode ≡ dev_open → p ≡ dev_principal g → Admits p
      verified :
          is_exempt g.permissions s ≡ false
          → IsAuthenticating g.mode
          → IsCaller g ctx token p
          → Passes p
          → Admits p

    pub data Refuses (d : Denial) : Type 0 where
      closed :
          is_exempt g.permissions s ≡ false
          → g.mode ≡ unavailable
          → d ≡ unavailable_denial g
          → Refuses d
      unconfigured :
          is_exempt g.permissions s ≡ false
          → IsAuthenticating g.mode
          → g.verify ≡ none
          → d ≡ no_verifier
          → Refuses d
      anonymous :
          is_exempt g.permissions s ≡ false
          → IsAuthenticating g.mode
          → (verifier : VerifyFunc) → g.verify ≡ some verifier
          → token ≡ []
          → d ≡ missing_token
          → Refuses d
      rejected :
          is_exempt g.permissions s ≡ false
          → IsAuthenticating g.mode
          → (verifier : VerifyFunc) → g.verify ≡ some verifier
          → token ≢ []
          → ((p : Principal) → verifier ctx token ≢ ok (some p))
          → d ≡ invalid_token
          → Refuses d
      failed :
          is_exempt g.permissions s ≡ false
          → IsAuthenticating g.mode
          → (p : Principal) → IsCaller g ctx token p
          → Fails p d
          → Refuses d
