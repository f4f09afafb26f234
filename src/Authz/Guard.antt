-- ===== src/Authz/Guard.antt =====
-- authz/guard.go: the posture of a service, and `Guard.Check`, the decision for one request.
pub mod Ladder
pub mod Denials
pub mod Complete
pub mod Admission
pub mod Slashes
pub mod Store
pub mod Claimed
pub mod Exempt
pub mod Authenticator
use maintainerd_sdk.Prelude.{
  ℕ, Bool, true, false, not, ◌&&◌, List, [], ◌∷◌, ◌++◌, Option, none, some, Result, ok, err, Slice,
  elements, byte_eq, if◌then◌else◌,
}
use maintainerd_sdk.Text.{Bytes, codes, ◌==◌, Unicode, is_empty}
use maintainerd_sdk.Auth.{GoError}
use maintainerd_sdk.Authz.Grant.{Grant, wildcard_action}
use maintainerd_sdk.Authz.Principal.{Principal, actor_kind_service, allows, has_action}
use maintainerd_sdk.Authz.Surface.{
  Surface, Actor, Rule, is_grpc, actor_permits, actor_user_only, actor_service_only,
}
use maintainerd_sdk.Authz.Permissions.{Map, resolve, is_exempt, declared_permissions}

-- `type Mode int` with its three constants, and the values that have no name.
pub data Mode : Type 0 where
  enforced dev_open unavailable : Mode
  unnamed : ℕ → Mode

unfoldable pub mode_to_string : Mode → Bytes
mode_to_string enforced = codes "enforced"
mode_to_string dev_open = codes "development-open"
mode_to_string unavailable = codes "unavailable"
mode_to_string (unnamed n) = codes "unavailable"

abbrev pub dev_open_subject : Bytes
dev_open_subject = codes "development-open"

-- The codes of package grpc/codes that the guard uses.
pub data GrpcCode : Type 0 where
  code_unavailable code_unauthenticated code_permission_denied : GrpcCode

pub record Denial : Type 0 where
  pub http_status : ℕ
  pub grpc_code : GrpcCode
  pub code : Bytes
  pub message : Bytes

unfoldable pub denial_error : Denial → Bytes
denial_error d = d.code ++ (codes ": " ++ d.message)

abbrev pub deny_auth_unavailable : Bytes
deny_auth_unavailable = codes "auth_unavailable"

abbrev pub deny_missing_token : Bytes
deny_missing_token = codes "missing_token"

abbrev pub deny_invalid_token : Bytes
deny_invalid_token = codes "invalid_token"

abbrev pub deny_unmapped_surface : Bytes
deny_unmapped_surface = codes "no_permission_mapping"

abbrev pub deny_insufficient : Bytes
deny_insufficient = codes "insufficient_permission"

abbrev pub deny_actor_kind : Bytes
deny_actor_kind = codes "actor_kind_not_permitted"

-- A request's `context.Context`: the principal that a guard placed, which may be a nil pointer, and
-- the "authorization" values of the incoming gRPC metadata, if there is metadata.
pub record Context : Type 0 where
  pub principal : Option (Option Principal)
  pub incoming_authorization : Option (List Bytes)

abbrev pub VerifyFunc : Type 0
VerifyFunc = Context → Bytes → Result GoError (Option Principal)

abbrev pub ResourceResolver : Type 0
ResourceResolver = Context → Surface → Option Bytes

-- The default writer answers in JSON, a writer of the service as it likes.
pub record HttpError : Type 0 where
  pub status : ℕ
  pub code : Bytes
  pub message : Bytes

-- The logger is left out.
pub record Guard : Type 0 where
  pub mode : Mode
  pub verify : Option VerifyFunc
  pub permissions : Map
  pub resource : Option ResourceResolver
  pub service : Bytes
  pub reason : Bytes
  pub dev_open_warnings : List Bytes
  pub write_error : Option (ℕ → Bytes → Bytes → HttpError)

unfoldable pub guard_permissions : Guard → List Bytes
guard_permissions g = declared_permissions g.permissions

unfoldable pub dev_principal : Guard → Principal
dev_principal g = record {
  subject = dev_open_subject;
  kind = actor_kind_service;
  tenant = [];
  scopes = wildcard_action ∷ [];
  grants = record { action = wildcard_action; resource = [] } ∷ [];
  blanket_actions = g.permissions.blanket_actions;
}

abbrev pub no_verifier : Denial
no_verifier = record {
  http_status = 503;
  grpc_code = code_unavailable;
  code = deny_auth_unavailable;
  message = codes "API authentication is not configured (no verifier); the API is disabled";
}

abbrev pub missing_token : Denial
missing_token = record {
  http_status = 401;
  grpc_code = code_unauthenticated;
  code = deny_missing_token;
  message = codes "missing bearer token";
}

abbrev pub invalid_token : Denial
invalid_token = record {
  http_status = 401;
  grpc_code = code_unauthenticated;
  code = deny_invalid_token;
  message = codes "invalid token";
}

-- A refusal of a caller that is known.
abbrev pub forbidden : Bytes → Bytes → Denial
forbidden code message = record {
  http_status = 403;
  grpc_code = code_permission_denied;
  code = code;
  message = message;
}

unfoldable pub unavailable_denial : Guard → Denial
unavailable_denial g = record {
  http_status = 503;
  grpc_code = code_unavailable;
  code = deny_auth_unavailable;
  message =
      codes "API authentication is not configured"
      ++ ((if not (g.reason == []) then codes " (" ++ (g.reason ++ codes ")") else [])
          ++ codes "; the API is disabled outside development");
}

unfoldable pub actor_message : Actor → Bytes
actor_message a =
    if byte_eq a actor_user_only
    then codes "this surface accepts user principals only"
    else if byte_eq a actor_service_only
    then codes "this surface accepts service principals only"
    else codes "this surface does not accept this class of caller"

unfoldable pub unmapped_message : Surface → Bytes
unmapped_message s =
    if is_grpc s
    then codes "method has no permission mapping"
    else codes "route has no permission mapping"

abbrev is_nil : Slice Bytes → Bool
is_nil none = true
is_nil (some xs) = false

abbrev has_elements : Slice Bytes → Bool
has_elements none = false
has_elements (some []) = false
has_elements (some (x ∷ xs)) = true

-- The copy of the principal that carries the service's blanket actions.
unfoldable pub with_blanket : Guard → Principal → Principal
with_blanket g p =
    if is_nil p.blanket_actions && has_elements g.permissions.blanket_actions
    then record p { blanket_actions = g.permissions.blanket_actions }
    else p

-- `(*Principal, *Denial)`
abbrev pub Verdict : Type 0
Verdict = Option Principal × Option Denial

abbrev pub admit : Principal → Verdict
admit p = (some p, none)

abbrev pub deny : Denial → Verdict
deny d = (none, some d)

abbrev resolve_target : Option ResourceResolver → Context → Surface → Option Bytes
resolve_target none ctx s = none
resolve_target (some resolver) ctx s = resolver ctx s

module _ ⦃u : Unicode⦄ (g : Guard) (ctx : Context) where
  -- The permission check: on the target where the service can resolve it, else on the action.
  unfoldable pub check_permission : Surface → Bytes → Principal → Verdict
  check_permission s required p = elim (resolve_target g.resource ctx s) [
    | some resource_mrn ↦
        if not (allows (some p) required resource_mrn)
        then deny (
            forbidden deny_insufficient
              (codes "requires permission " ++ (required ++ (codes " on " ++ resource_mrn))))
        else admit p
    | none ↦
        if not (has_action (some p) required)
        then deny (forbidden deny_insufficient (codes "requires permission " ++ required))
        else admit p
  ]

  -- The checks on a verified caller: the allowlist, the class of caller, the permission.
  unfoldable pub check_surface : Surface → Principal → Verdict
  check_surface s p = elim (resolve g.permissions s) [
    | none ↦ deny (forbidden deny_unmapped_surface (unmapped_message s))
    | some rule ↦
        if not (actor_permits rule.actor p.kind)
        then deny (forbidden deny_actor_kind (actor_message rule.actor))
        else if rule.permission == []
        then admit p
        else check_permission s rule.permission p
  ]

  -- The checks in a mode that authenticates.
  unfoldable pub check_token : Bytes → Surface → Verdict
  check_token token s = elim g.verify [
    | none ↦ deny no_verifier
    | some verify ↦ if token == [] then deny missing_token else elim (verify ctx token) [
      | err e ↦ deny invalid_token
      | ok none ↦ deny invalid_token
      | ok (some p) ↦ check_surface s (with_blanket g p)
    ]
  ]

  unfoldable pub check_mode : Mode → Bytes → Surface → Verdict
  check_mode dev_open token s = admit (dev_principal g)
  check_mode unavailable token s = deny (unavailable_denial g)
  check_mode enforced token s = check_token token s
  check_mode (unnamed n) token s = check_token token s

  -- `Guard.Check`
  unfoldable pub check : Bytes → Surface → Verdict
  check token s = if is_exempt g.permissions s then (none, none) else check_mode g.mode token s
