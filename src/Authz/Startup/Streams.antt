-- ===== src/Authz/Startup/Streams.antt =====
-- A stream handler of a service that booted in enforcement.
use maintainerd_sdk.Prelude.{◌≡◌, sym, ◌∙◌, ◌↔◌, false, some, arith, Result, ok}
use maintainerd_sdk.Text.{Bytes, Unicode}
use maintainerd_sdk.Auth.{TokenLibrary}
use maintainerd_sdk.Authz.Principal.{Principal}
use maintainerd_sdk.Authz.Permissions.{Map, is_exempt}
use maintainerd_sdk.Authz.Guard.{Guard}
use maintainerd_sdk.Authz.Guard.Admission.{check-Admits_iff}
use maintainerd_sdk.Authz.Guard.Ladder.{Admits}
use maintainerd_sdk.Authz.Transport.{
  Status, grpc_surface, new_context, bearer_from_metadata, ServerStream, principal_stream,
  stream_interceptor,
}
use maintainerd_sdk.Authz.Transport.Enforcement.{Enforces, stream_interceptor-Enforces}
use maintainerd_sdk.Authz.Startup.{Config, resolve_guard}
use maintainerd_sdk.Authz.Startup.Ladder.{IsConfigured}
use maintainerd_sdk.Authz.Startup.EndToEnd.{IsAuthentic, booted-IsAuthentic}

module _ ⦃u : Unicode⦄ {S R : Type 0} (g : Guard) (full_method : Bytes)
    (handler : ServerStream S → Result Status R) (ss : ServerStream S) (x : R) where
  -- The handler answers on the very stream, in a context that carries the principal.
  abbrev pub AnswersFor : Principal → Type 0
  AnswersFor p =
      handler (record { stream = ss.stream; context = new_context ss.context (some p) }) ≡ ok x

  stream_sound :
      is_exempt g.permissions (grpc_surface full_method) ≡ false
      → stream_interceptor g full_method handler ss ≡ ok x
      → (p : Principal) × Admits g ss.context
          (grpc_surface full_method)
          (bearer_from_metadata ss.context)
          p
        × AnswersFor p
  unfolding principal_stream
  stream_sound guarded h = elim (stream_interceptor-Enforces g full_method handler ss) [
    | Enforces.exempt e same ↦ absurd (ground arith)
    | Enforces.admitted p a e ↦ (p, a, sym e ∙ h)
    | Enforces.turned_away d k e ↦ absurd (ground arith)
  ]

  stream_complete :
      (p : Principal)
      → Admits g ss.context (grpc_surface full_method) (bearer_from_metadata ss.context) p
      → AnswersFor p
      → stream_interceptor g full_method handler ss ≡ ok x
  unfolding stream_interceptor principal_stream
  stream_complete p a answers =
      rw
        ((check-Admits_iff g ss.context (grpc_surface full_method) (bearer_from_metadata ss.context)
            p).1
          a)
        answers

module _ ⦃u : Unicode⦄ {S R : Type 0} (L : TokenLibrary) (cfg : Config) (g : Guard) where
  -- The first "authorization" value of the stream's metadata is an authentic bearer token, and the
  -- handler answers for its principal.
  pub record IsStreamed (full_method : Bytes) (handler : ServerStream S → Result Status R)
      (ss : ServerStream S) (x : R) : Type 0 where
    pub principal : Principal
    pub authentic :
        IsAuthentic L cfg g ss.context
          (grpc_surface full_method)
          (bearer_from_metadata ss.context)
          principal
    pub answers : AnswersFor g full_method handler ss x principal

  -- In a service that boots with all three settings, the stream handler of a method that is not
  -- exempt answers exactly if the bearer token in the stream's metadata is one that the JWT library
  -- accepts under the configured keys, issuer and audience, its principal passes the allowlist, and
  -- the handler answers on the same stream in a context that carries this principal.
  pub stream-IsStreamed_iff :
      (permissions : Map) (full_method : Bytes) (handler : ServerStream S → Result Status R)
      (ss : ServerStream S) (x : R)
      → IsConfigured cfg
      → resolve_guard L cfg permissions ≡ ok g
      → is_exempt g.permissions (grpc_surface full_method) ≡ false
      → (stream_interceptor g full_method handler ss ≡ ok x) ↔ IsStreamed full_method handler ss x
  stream-IsStreamed_iff permissions full_method handler ss x good boots guarded =
      let whom =
        booted-IsAuthentic L cfg permissions g good boots ss.context (grpc_surface full_method)
          (bearer_from_metadata ss.context) in
      (
        λ h.
            let (p, admits, answers) = stream_sound g full_method handler ss x guarded h in
            record { principal = p; authentic = (whom p).0 admits; answers = answers },
        λ r.
            stream_complete g full_method handler ss x r.principal
              ((whom r.principal).1 r.authentic) r.answers,
      )
