-- ===== src/Authz/Claims.antt =====
-- authz/adapter.go: from verified claims to a principal, and the class of the caller.
pub mod Kind
pub mod Entries
use maintainerd_sdk.Prelude.{
  Bool, true, false, not, List, [], ◌∷◌, ◌++◌, Option, none, some, Result, ok, err, if◌then◌else◌,
}
use maintainerd_sdk.Text.{Bytes, codes, ◌==◌, to_lower, Unicode}
use maintainerd_sdk.Text.Maps.{GoMap, lookup}
use maintainerd_sdk.Text.Space.{trim_space}
use maintainerd_sdk.Auth.{
  GoError, Any, str, arr, other, Anys, nil, cons, Claims, TokenLibrary, Verifier, string_claim,
  verify,
}
use maintainerd_sdk.Authz.Grant.{parse_grants}
use maintainerd_sdk.Authz.Principal.{Principal, actor_kind_user, actor_kind_service, scope_in}

abbrev pub claim_permissions : Bytes
claim_permissions = codes "permissions"

abbrev pub claim_subject_type : Bytes
claim_subject_type = codes "sub_type"

abbrev pub claim_service : Bytes
claim_service = codes "svc"

abbrev pub claim_tenant_slug : Bytes
claim_tenant_slug = codes "tenant_slug"

abbrev pub machine_subject_types : List Bytes
machine_subject_types = codes "service" ∷ codes "client" ∷ codes "exchange" ∷ []

abbrev pub human_subject_types : List Bytes
human_subject_types = codes "user" ∷ codes "device" ∷ codes "ciba" ∷ []

-- The loop over the "permissions" array: entries that are texts and not blank are kept.
unfoldable pub permission_entries : Anys → List Bytes
permission_entries nil = []
permission_entries (cons (str s) vs) =
    let rest = permission_entries vs in if not (trim_space s == []) then s ∷ rest else rest
permission_entries (cons (arr ws) vs) = permission_entries vs
permission_entries (cons other vs) = permission_entries vs

unfoldable pub permissions_claim : Option Any → List Bytes
permissions_claim none = []
permissions_claim (some (str s)) = []
permissions_claim (some (arr vs)) = permission_entries vs
permissions_claim (some other) = []

module _ ⦃u : Unicode⦄ where
  unfoldable pub actor_kind_from_claims : GoMap Any → Bytes
  actor_kind_from_claims raw =
      if not (trim_space (string_claim raw claim_service) == [])
      then actor_kind_service
      else (let subject_type = to_lower (trim_space (string_claim raw claim_subject_type)) in
          if subject_type == []
          then actor_kind_user
          else if scope_in subject_type human_subject_types
          then actor_kind_user
          else if scope_in subject_type machine_subject_types
          then actor_kind_service
          else actor_kind_service)

  unfoldable pub principal_of_claims : Claims → Principal
  principal_of_claims c =
      let scopes = c.scopes ++ permissions_claim (lookup claim_permissions c.raw) in
      record {
        subject = c.subject;
        kind = actor_kind_from_claims c.raw;
        tenant = if c.tenant == [] then string_claim c.raw claim_tenant_slug else c.tenant;
        scopes = scopes;
        grants = parse_grants scopes;
        blanket_actions = none;
      }

  -- `PrincipalFromClaims`, for a pointer.
  unfoldable pub principal_from_claims : Option Claims → Option Principal
  principal_from_claims none = none
  principal_from_claims (some c) = some (principal_of_claims c)

  -- `SDKVerify`
  unfoldable pub sdk_verify :
      (L : TokenLibrary) → Verifier L → Bytes → Result GoError (Option Principal)
  sdk_verify L v token = elim (verify L v token) [
    | err e ↦ err e
    | ok c ↦ ok (principal_from_claims (some c))
  ]
