-- ===== src/Client/Credentials/Guarded.antt =====
-- A call from a client with credentials to a service with a guard.
use mathlib.Core.Path.{subst}
use maintainerd_sdk.Prelude.{[], some, Result, err}
use maintainerd_sdk.Text.{Bytes, Unicode}
use maintainerd_sdk.Authz.Guard.{Guard, Context}
use maintainerd_sdk.Authz.Transport.{
  Status, status_of, grpc_surface, new_context, unary_interceptor,
}
use maintainerd_sdk.Authz.Transport.Enforcement.{Enforces, unary_interceptor-Enforces}
use maintainerd_sdk.Client.Credentials.{Credentials, Outgoing, attach, unary_creds_interceptor}
use maintainerd_sdk.Client.Credentials.Attached.{received, presented, presented_attached}

module _ ⦃u : Unicode⦄ {W R : Type 0} (g : Guard) (full_method : Bytes) where
  -- The call of a method by a client with these credentials, which goes out with "authorization"
  -- values of its own, as the service answers it, and the world of the client after it.
  abbrev pub call_with :
      Credentials W → W → Outgoing → (Context → Result Status R) → Result Status R × W
  call_with creds w own handler =
      unary_creds_interceptor (some creds)
        (λ outgoing w'. (unary_interceptor g full_method handler (received outgoing), w')) own w

  -- A call that carries no authorization of its own.
  abbrev pub call : Credentials W → W → (Context → Result Status R) → Result Status R × W
  call creds w handler = call_with creds w [] handler

  -- A call through the client's interceptor and the service's is judged by one token: the one that
  -- the client's credentials gave, or, if the call has authorization values of its own, the first
  -- of these. The handler runs on the bare context only if the method is exempt, runs with the
  -- principal that the guard admits for that token, or the client gets the guard's status; and
  -- without a value of its own, a client whose credentials fail or are anonymous is judged as one
  -- without a token.
  pub call_with-Enforces :
      (creds : Credentials W) (w : W) (own : Outgoing) (handler : Context → Result Status R)
      → Enforces g
          (received (attach (creds w).0 own))
          (grpc_surface full_method)
          (presented (creds w).0 own)
          (λ d. err (status_of d))
          (received (attach (creds w).0 own))
          (λ p. new_context (received (attach (creds w).0 own)) (some p))
          handler
          (call_with creds w own handler).0
  unfolding unary_creds_interceptor
  call_with-Enforces creds w own handler =
      let ctx = received (attach (creds w).0 own) in
      subst
        (λ token.
          Enforces g ctx (grpc_surface full_method) token (λ d. err (status_of d)) ctx
            (λ p. new_context ctx (some p)) handler (unary_interceptor g full_method handler ctx))
        (presented_attached (creds w).0 own) (unary_interceptor-Enforces g full_method handler ctx)
