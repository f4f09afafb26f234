-- ===== src/Client/Credentials/Booted.antt =====
-- A call from a client with credentials to a service that booted in enforcement.
use maintainerd_sdk.Prelude.{◌≡◌, sym, [], ap, ◌∙◌, ◌↔◌, false, some, arith, Result, ok}
use maintainerd_sdk.Text.{Bytes, Unicode}
use maintainerd_sdk.Auth.{TokenLibrary}
use maintainerd_sdk.Authz.Principal.{Principal}
use maintainerd_sdk.Authz.Permissions.{Map, is_exempt}
use maintainerd_sdk.Authz.Guard.{Guard, Context, check}
use maintainerd_sdk.Authz.Guard.Ladder.{Admits}
use maintainerd_sdk.Authz.Guard.Admission.{check-Admits_iff}
use maintainerd_sdk.Authz.Transport.{Status, grpc_surface, new_context, unary_interceptor}
use maintainerd_sdk.Authz.Transport.Enforcement.{Enforces}
use maintainerd_sdk.Authz.Startup.{Config, resolve_guard}
use maintainerd_sdk.Authz.Startup.Ladder.{IsConfigured}
use maintainerd_sdk.Authz.Startup.EndToEnd.{IsAuthentic, booted-IsAuthentic}
use maintainerd_sdk.Client.Credentials.{Credentials, unary_creds_interceptor}
use maintainerd_sdk.Client.Credentials.Attached.{called, intended, bearer_attached}
use maintainerd_sdk.Client.Credentials.Guarded.{call, call_with-Enforces}

module _ ⦃u : Unicode⦄ {W R : Type 0} (g : Guard) (full_method : Bytes) (creds : Credentials W)
    (w : W) (handler : Context → Result Status R) (x : R) where
  -- The ladder admits a principal for the token of the credentials, and the handler answers in the
  -- context that carries it.
  abbrev pub IsAnsweredFor : Principal → Type 0
  IsAnsweredFor p =
      Admits g (called (creds w).0) (grpc_surface full_method) (intended (creds w).0) p
      × (handler (new_context (called (creds w).0) (some p)) ≡ ok x)

  answered_sound :
      is_exempt g.permissions (grpc_surface full_method) ≡ false
      → (call g full_method creds w handler).0 ≡ ok x
      → (p : Principal) × IsAnsweredFor p
  answered_sound guarded h = elim (call_with-Enforces g full_method creds w [] handler) [
    | Enforces.exempt e same ↦ absurd (ground arith)
    | Enforces.admitted p a e ↦ (p, (a, sym e ∙ h))
    | Enforces.turned_away d k e ↦ absurd (ground arith)
  ]

  answered_complete :
      (p : Principal) → IsAnsweredFor p → (call g full_method creds w handler).0 ≡ ok x
  unfolding unary_creds_interceptor unary_interceptor
  answered_complete p (a, answers) =
      let judged =
        ap (λ t. check g (called (creds w).0) t (grpc_surface full_method))
          (bearer_attached (creds w).0)
        ∙ (check-Admits_iff g (called (creds w).0) (grpc_surface full_method) (intended (creds w).0)
              p).1
            a in
      rw judged answers

module _ ⦃u : Unicode⦄ {W R : Type 0} (L : TokenLibrary) (cfg : Config) (g : Guard) where
  -- The token of the credentials is authentic, and the handler answers in the context that carries
  -- its principal.
  pub record IsReached (full_method : Bytes) (creds : Credentials W) (w : W)
      (handler : Context → Result Status R) (x : R) : Type 0 where
    pub principal : Principal
    pub authentic :
        IsAuthentic L cfg g
          (called (creds w).0)
          (grpc_surface full_method)
          (intended (creds w).0)
          principal
    pub answers : handler (new_context (called (creds w).0) (some principal)) ≡ ok x

  -- A client's call, which carries no authorization of its own, of a method that is not exempt, to
  -- a service that boots with all three settings, succeeds exactly if the token that its
  -- credentials gave is one that the JWT library accepts under the configured keys, issuer and
  -- audience, its principal passes the allowlist, and the handler answers in a context with that
  -- principal; and the answer is the handler's.
  pub call-IsReached_iff :
      (permissions : Map) (full_method : Bytes) (creds : Credentials W) (w : W)
      (handler : Context → Result Status R) (x : R)
      → IsConfigured cfg
      → resolve_guard L cfg permissions ≡ ok g
      → is_exempt g.permissions (grpc_surface full_method) ≡ false
      → ((call g full_method creds w handler).0 ≡ ok x) ↔ IsReached full_method creds w handler x
  call-IsReached_iff permissions full_method creds w handler x good boots guarded =
      let whom =
        booted-IsAuthentic L cfg permissions g good boots (called (creds w).0)
          (grpc_surface full_method) (intended (creds w).0) in
      (
        λ h.
            let (p, (admits, answers)) = answered_sound g full_method creds w handler x guarded h in
            record { principal = p; authentic = (whom p).0 admits; answers = answers },
        λ r.
            answered_complete g full_method creds w handler x r.principal
              ((whom r.principal).1 r.authentic, r.answers),
      )
