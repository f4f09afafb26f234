-- ===== src/Client/Credentials/Session.antt =====
-- A client whose credentials are a client-credentials source, over its calls one after another.
use mathlib.Core.List.{Memᴰ}
use mathlib.Core.Path.{subst}
use maintainerd_sdk.Prelude.{
  ◌<◌, ◌+◌, ◌≡◌, refl, sym, ap, ◌∙◌, ◌⊎◌, inl, inr, false, List, [], ◌∷◌, map, some, Result, ok,
  Result-cases, Memᴰ-map,
}
use maintainerd_sdk.Text.{Bytes, Unicode}
use maintainerd_sdk.Auth.{TokenLibrary}
use maintainerd_sdk.Authz.Principal.{Principal}
use maintainerd_sdk.Authz.Permissions.{Map, is_exempt}
use maintainerd_sdk.Authz.Guard.{Guard, Context}
use maintainerd_sdk.Authz.Transport.{Status, grpc_surface, new_context}
use maintainerd_sdk.Authz.Startup.{Config, resolve_guard}
use maintainerd_sdk.Authz.Startup.Ladder.{IsConfigured}
use maintainerd_sdk.Authz.Startup.EndToEnd.{IsAuthentic}
use maintainerd_sdk.Client.Tokens.{
  Time, Duration, TokenError, HttpClient, ClientCredentialsConfig, client_credentials, Cache, Call,
  empty_cache, refresh_margin, token,
}
use maintainerd_sdk.Client.Tokens.Fresh.{Run, token-IsFresh}
use maintainerd_sdk.Client.Tokens.Granted.{IsGranted, client_credentials-IsGranted_iff}
use maintainerd_sdk.Client.Credentials.{unary_creds_interceptor}
use maintainerd_sdk.Client.Credentials.Attached.{called, intended}
use maintainerd_sdk.Client.Credentials.Guarded.{call}
use maintainerd_sdk.Client.Credentials.Booted.{IsReached, call-IsReached_iff}

-- One call: the service and its handler, the clock when the source is asked and when it stores a
-- token, and the token endpoint as it is then.
pub record Rpc (R : Type 0) : Type 0 where
  pub service : Guard
  pub full_method : Bytes
  pub handler : Context → Result Status R
  pub asked : Time
  pub stored : Time
  pub endpoint : HttpClient

-- The fetch function of a source, by what its HTTP client does when it is called.
abbrev pub Source : Type 0
Source = HttpClient → Unit {0} → Result TokenError (Bytes × Duration)

module _ (fetch : Source) {R : Type 0} where
  abbrev pub token_call : Rpc R → Call
  token_call r = record { asked = r.asked; answer = fetch r.endpoint tt; stored = r.stored }

  -- The call with the source as credentials: the client's answer, and the cache after it.
  abbrev pub perform : ⦃u : Unicode⦄ → Rpc R → Cache → Result Status R × Cache
  perform r c = call r.service r.full_method (token (token_call r)) c r.handler

  -- The cache after calls one after another, the latest first.
  pub data Session ⦃u : Unicode⦄ : List (Rpc R) → Cache → Type 0 where
    opened : Session [] empty_cache
    performed :
        {before : List (Rpc R)} {c : Cache} (r : Rpc R)
        → Session before c
        → Session (r ∷ before) (perform r c).1

  module _ ⦃u : Unicode⦄ where
    Session-Run :
        (calls : List (Rpc R)) (c : Cache) → Session calls c → Run (map token_call calls) c
    unfolding unary_creds_interceptor
    Session-Run calls c Session.opened = Run.start
    Session-Run calls c (Session.performed {before = before} {c = d} r s) =
        Run.next (token_call r) (Session-Run before d s)

    module _ (L : TokenLibrary) (cfg : Config) (source : ClientCredentialsConfig)
        (calls : List (Rpc R)) (r : Rpc R) (x : R) where
      -- The token was granted at this call, or at an earlier one with more than the margin of its
      -- lifetime left; it is authentic, and the handler answers for its principal.
      pub record IsEarned : Type 0 where
        pub tok : Bytes
        pub ttl : Duration
        pub origin : Rpc R
        pub granted : IsGranted origin.endpoint source tok ttl
        pub fresh :
            (origin ≡ r)
            ⊎ (Memᴰ origin calls × (r.asked + refresh_margin ttl < origin.stored + ttl))
        pub principal : Principal
        pub authentic :
            IsAuthentic L cfg r.service
              (called (ok tok))
              (grpc_surface r.full_method)
              (intended (ok tok))
              principal
        pub answers : r.handler (new_context (called (ok tok)) (some principal)) ≡ ok x

      module _ (made : (hc : HttpClient) → client_credentials hc source ≡ ok (fetch hc)) where
        token-IsGranted :
            (o : Rpc R) (tok : Bytes) (ttl : Duration)
            → (token_call o).answer ≡ ok (tok, ttl)
            → IsGranted o.endpoint source tok ttl
        token-IsGranted o tok ttl h =
            (client_credentials-IsGranted_iff o.endpoint source tok ttl).0
              (fetch o.endpoint, made o.endpoint, h)

        -- Where a token that the source returns comes from.
        origin_of :
            (c : Cache) (tok : Bytes)
            → Session calls c
            → (token (token_call r) c).0 ≡ ok tok
            → (ttl : Duration) × (o : Rpc R) × IsGranted o.endpoint source tok ttl
              × ((o ≡ r) ⊎ (Memᴰ o calls × (r.asked + refresh_margin ttl < o.stored + ttl)))
        origin_of c tok s h =
            elim (token-IsFresh (map token_call calls) c (token_call r) tok (Session-Run calls c s)
              h) [
                | inl (ttl, own) ↦ (ttl, r, token-IsGranted r tok ttl own, inl refl)
                | inr (earlier, ttl, m, answered, left) ↦
                    let (o, at, same) = Memᴰ-map token_call earlier calls m in
                    (
                      ttl,
                      o,
                      token-IsGranted o tok ttl (ap (λ (k : Call). k.answer) same ∙ answered),
                      inr (
                        at,
                        subst (λ (k : Call). r.asked + refresh_margin ttl < k.stored + ttl)
                            (sym same) left,
                      ),
                    )
              ]

        IsReached-IsEarned :
            (c : Cache)
            → Session calls c
            → IsReached L cfg r.service r.full_method (token (token_call r)) c r.handler x
            → IsEarned
        IsReached-IsEarned c s reached = elim (Result-cases (token (token_call r) c).0) [
          | inl (e, failed) ↦ absurd (reached.authentic.presented (ap intended failed))
          | inr (tok, got) ↦
              let (ttl, o, granted, fresh) = origin_of c tok s got in
              record {
                tok = tok;
                ttl = ttl;
                origin = o;
                granted = granted;
                fresh = fresh;
                principal = reached.principal;
                authentic =
                    subst
                      (λ a.
                        IsAuthentic L cfg r.service (called a) (grpc_surface r.full_method)
                          (intended a) reached.principal)
                      got reached.authentic;
                answers =
                    subst (λ a. r.handler (new_context (called a) (some reached.principal)) ≡ ok x)
                      got reached.answers;
              }
        ]

        -- A client whose credentials are a client-credentials source makes calls one after another,
        -- which carry no authorization of their own, to any services. If its next call, of a method
        -- that is not exempt, to a service that boots with all three settings, succeeds, then the
        -- token endpoint granted the token under the source's configuration, at this call or at an
        -- earlier one with more than the refresh margin of the token's lifetime left; the token is
        -- authentic for that service, its principal passes the allowlist, and the answer is the
        -- handler's for that principal.
        pub perform-IsEarned :
            (permissions : Map) (c : Cache)
            → Session calls c
            → IsConfigured cfg
            → resolve_guard L cfg permissions ≡ ok r.service
            → is_exempt r.service.permissions (grpc_surface r.full_method) ≡ false
            → (perform r c).0 ≡ ok x
            → IsEarned
        perform-IsEarned permissions c s good boots guarded h = IsReached-IsEarned c s (
            (call-IsReached_iff L cfg r.service permissions r.full_method (token (token_call r)) c
                r.handler x good boots guarded).0
              h)
