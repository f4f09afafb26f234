-- ===== src/Auth/Protected.antt =====
-- The HTTP guard of package auth, and what stands behind `RequireScope`.
use mathlib.Core.List.{Memᴰ}
use maintainerd_sdk.Prelude.{
  ◌≡◌, sym, ◌≢◌, ◌↔◌, inl, inr, true, false, List, [], ◌∷◌, some, arith, ok, Bool-cases,
  Result-cases,
}
use maintainerd_sdk.Text.{Bytes, ◌==◌}
use maintainerd_sdk.Text.Laws.{eq_iff}
use maintainerd_sdk.Auth.{Claims, TokenLibrary, Verifier, verify, scope_among, has_scope}
use maintainerd_sdk.Auth.Bearer.{bearer, Request, Reply, served, middleware, require_scope}

scope_among_sound : (scope : Bytes) (ss : List Bytes) → scope_among scope ss ≡ true → Memᴰ scope ss
unfolding scope_among
scope_among_sound scope [] h = absurd (ground arith)
scope_among_sound scope (s ∷ ss) h = elim (Bool-cases (s == scope)) [
  | inl same ↦ Memᴰ.head (sym ((eq_iff s scope).0 same))
  | inr other ↦ Memᴰ.tail (scope_among_sound scope ss (ground arith))
]

scope_among_complete :
    (scope : Bytes) {ss : List Bytes} → Memᴰ scope ss → scope_among scope ss ≡ true
unfolding scope_among
scope_among_complete scope (Memᴰ.head {x} {xs} e) = ground (arith, eq_iff x scope)
scope_among_complete scope (Memᴰ.tail {x} {xs} m) = ground (arith, scope_among_complete scope m)

pub has_scope_iff : (c : Claims) (scope : Bytes) → (has_scope c scope ≡ true) ↔ Memᴰ scope c.scopes
unfolding has_scope
has_scope_iff c scope = (scope_among_sound scope c.scopes, scope_among_complete scope)

module _ {R : Type 0} (L : TokenLibrary) (v : Verifier L) where
  -- The handler ran on a request that carries the claims of a verified token, which hold the scope.
  pub record IsServed (scope : Bytes) (next : Request → Reply R) (r : Request) (x : R)
      : Type 0 where
    pub claims : Claims
    pub presented : bearer r.authorization ≢ []
    pub verified : verify L v (bearer r.authorization) ≡ ok claims
    pub granted : Memᴰ scope claims.scopes
    pub answer : next (record r { claims = some claims }) ≡ served x

  scoped :
      (scope : Bytes) (next : Request → Reply R) (r : Request) (x : R) (c : Claims)
      → require_scope scope next (record r { claims = some c }) ≡ served x
      → Memᴰ scope c.scopes × (next (record r { claims = some c }) ≡ served x)
  unfolding require_scope
  scoped scope next r x c h = elim (Bool-cases (has_scope c scope)) [
    | inl held ↦ ((has_scope_iff c scope).0 held, ground arith)
    | inr missing ↦ absurd (ground arith)
  ]

  served_sound :
      (scope : Bytes) (next : Request → Reply R) (r : Request) (x : R)
      → middleware L v (require_scope scope next) r ≡ served x
      → IsServed scope next r x
  served_sound scope next r x h = elim (Bool-cases (bearer r.authorization == [])) [
    | inl absent ↦ absurd (unfold middleware in ground arith)
    | inr present ↦ elim (Result-cases (verify L v (bearer r.authorization))) [
      | inl (e, failed) ↦ absurd (unfold middleware in ground arith)
      | inr (c, found) ↦
          let inner : require_scope scope next (record r { claims = some c }) ≡ served x =
            unfold middleware in ground arith in
          let (granted, answer) = scoped scope next r x c inner in
          record {
            claims = c;
            presented = ground (arith, eq_iff (bearer r.authorization) []);
            verified = found;
            granted = granted;
            answer = answer;
          }
    ]
  ]

  served_complete :
      (scope : Bytes) (next : Request → Reply R) (r : Request) (x : R)
      → IsServed scope next r x
      → middleware L v (require_scope scope next) r ≡ served x
  unfolding middleware require_scope
  served_complete scope next r x s =
      let held = (has_scope_iff s.claims scope).1 s.granted in
      let present : (bearer r.authorization == []) ≡ false =
        ground (arith, eq_iff (bearer r.authorization) [], s.presented) in
      rw (present, s.verified, held) s.answer

  -- Behind the verifier's middleware and `RequireScope` a handler answers exactly if a bearer token
  -- is presented, the verifier returns claims for it, and the scope is one of theirs; and then it
  -- is with those claims in its request that the handler runs.
  pub middleware-IsServed_iff :
      (scope : Bytes) (next : Request → Reply R) (r : Request) (x : R)
      → (middleware L v (require_scope scope next) r ≡ served x) ↔ IsServed scope next r x
  middleware-IsServed_iff scope next r x =
      (served_sound scope next r x, served_complete scope next r x)
