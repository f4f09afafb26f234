-- ===== src/Authz/Claims/Kind.antt =====
-- The five rules that class a caller as a human or a machine.
use mathlib.Core.List.{Memᴰ}
use maintainerd_sdk.Prelude.{◌≡◌, ◌↔◌, ◌⊎◌, inl, inr, true, [], arith}
use maintainerd_sdk.Text.{Bytes, to_lower, Unicode}
use maintainerd_sdk.Text.Laws.{eq_iff}
use maintainerd_sdk.Text.Maps.{GoMap}
use maintainerd_sdk.Text.Space.{trim_space}
use maintainerd_sdk.Auth.{Any, string_claim}
use maintainerd_sdk.Authz.Principal.{actor_kind_user, actor_kind_service, scope_in}
use maintainerd_sdk.Authz.Permissions.Declared.{scope_in_sound, scope_in_complete}
use maintainerd_sdk.Authz.Claims.{
  claim_service, claim_subject_type, human_subject_types, actor_kind_from_claims,
}

module _ ⦃u : Unicode⦄ where
  -- The "sub_type" claim as it is compared.
  abbrev pub subject_type : GoMap Any → Bytes
  subject_type raw = to_lower (trim_space (string_claim raw claim_subject_type))

  kind_tests :
      (raw : GoMap Any)
      → (actor_kind_from_claims raw ≡ actor_kind_user) ↔ (
          (trim_space (string_claim raw claim_service) ≡ [])
          × ((subject_type raw ≡ []) ⊎ (scope_in (subject_type raw) human_subject_types ≡ true)))
  unfolding actor_kind_from_claims
  kind_tests raw =
      ground (
        arith,
        eq_iff (trim_space (string_claim raw claim_service)) [],
        eq_iff (subject_type raw) [],
      )

  -- A caller is classed as a human exactly if its "svc" claim is missing or blank, and its
  -- "sub_type" claim is missing, blank, or one of user, device and ciba; and as a machine
  -- otherwise.
  pub actor_kind_iff :
      (raw : GoMap Any)
      → ((actor_kind_from_claims raw ≡ actor_kind_user) ↔ (
          (trim_space (string_claim raw claim_service) ≡ [])
          × ((subject_type raw ≡ []) ⊎ Memᴰ (subject_type raw) human_subject_types)))
        × ((actor_kind_from_claims raw ≡ actor_kind_user)
            ⊎ (actor_kind_from_claims raw ≡ actor_kind_service))
  actor_kind_iff raw =
      let (to, from) = kind_tests raw in
      (
        (
          λ h.
              let (plain, either) = to h in
              (
                plain,
                elim either [
                  | inl e ↦ inl e
                  | inr found ↦ inr (scope_in_sound (subject_type raw) human_subject_types found)
                ],
              ),
          λ (plain, either). from (
            plain,
            elim either [ inl e ↦ inl e | inr m ↦ inr (scope_in_complete (subject_type raw) m) ],
          ),
        ),
        unfold actor_kind_from_claims in ground arith,
      )
