-- ===== src/Authz/Startup/Service.antt =====
-- A handler of a service that booted in enforcement, behind `Middleware` and `RequirePermission`.
use maintainerd_sdk.Prelude.{◌≡◌, ◌↔◌, true, false, some, ok}
use maintainerd_sdk.Text.{Bytes, Unicode}
use maintainerd_sdk.Auth.{TokenLibrary}
use maintainerd_sdk.Auth.Bearer.{bearer}
use maintainerd_sdk.Authz.Principal.{Principal, has_action}
use maintainerd_sdk.Authz.Permissions.{Map, is_exempt}
use maintainerd_sdk.Authz.Guard.{Guard}
use maintainerd_sdk.Authz.Transport.{
  Request, Reply, served, surface_from_request, with_principal, require_permission, middleware,
}
use maintainerd_sdk.Authz.Transport.Enforcement.{protected_handler}
use maintainerd_sdk.Authz.Transport.Protected.{protected_complete}
use maintainerd_sdk.Authz.Startup.{Config, resolve_guard}
use maintainerd_sdk.Authz.Startup.Ladder.{IsConfigured}
use maintainerd_sdk.Authz.Startup.EndToEnd.{IsAuthentic, booted-IsAuthentic}

module _ ⦃u : Unicode⦄ {R : Type 0} (L : TokenLibrary) (cfg : Config) (g : Guard) where
  -- The request's bearer token is authentic, as a principal that holds the action, and the handler
  -- answers the request that carries that principal.
  pub record IsAnswered (action : Bytes) (next : Request → Reply R) (r : Request) (x : R)
      : Type 0 where
    pub principal : Principal
    pub authentic :
        IsAuthentic L cfg g r.context (surface_from_request r) (bearer r.authorization) principal
    pub held : has_action (some principal) action ≡ true
    pub answer : next (with_principal r principal) ≡ served x

  -- In a service that boots with all three settings, a handler behind `Middleware` and
  -- `RequirePermission`, on a path that is not exempt, answers exactly if the request's bearer
  -- token is one that the JWT library accepts under the configured keys, issuer and audience, its
  -- principal passes the allowlist and holds the action, and the handler answers the request with
  -- that principal in its context.
  pub middleware-IsAnswered_iff :
      (permissions : Map) (action : Bytes) (next : Request → Reply R) (r : Request) (x : R)
      → IsConfigured cfg
      → resolve_guard L cfg permissions ≡ ok g
      → is_exempt g.permissions (surface_from_request r) ≡ false
      → (middleware g (require_permission action next) r ≡ served x) ↔ IsAnswered action next r x
  middleware-IsAnswered_iff permissions action next r x good boots guarded =
      let whom =
        booted-IsAuthentic L cfg permissions g good boots r.context (surface_from_request r)
          (bearer r.authorization) in
      (
        λ h.
            let (p, admits, held, answer) = protected_handler g action next r x guarded h in
            record { principal = p; authentic = (whom p).0 admits; held = held; answer = answer },
        λ a.
            protected_complete g action next r x
              (a.principal, (whom a.principal).1 a.authentic, a.held, a.answer),
      )
