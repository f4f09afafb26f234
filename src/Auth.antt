-- ===== src/Auth.antt =====
-- auth/verifier.go: token verification, scope checks, and the guard that only asks for a token.
-- The JWT library and the key cache are a parameter.
pub mod Verified
pub mod Bearer
pub mod Protected
pub mod Discovery
use maintainerd_sdk.Prelude.{
  Bool, true, false, not, ◌&&◌, ◌||◌, List, [], ◌∷◌, Option, none, some, Result, ok, err, ◌>>=◌,
  ◌>>◌, refuse_if, if◌then◌else◌,
}
use maintainerd_sdk.Text.{Bytes, codes, ◌==◌}
use maintainerd_sdk.Text.Maps.{GoMap, lookup}
use maintainerd_sdk.Text.Space.{fields}

-- An `error` by its text.
abbrev pub GoError : Type 0
GoError = Bytes

-- The values of a decoded claim set: `any`.
mutual
  pub data Any : Type 0 where
    str : Bytes → Any
    arr : Anys → Any
    other : Any

  pub data Anys : Type 0 where
    nil : Anys
    cons : Any → Anys → Anys

abbrev pub as_string : Option Any → Bytes
as_string none = []
as_string (some (str s)) = s
as_string (some (arr vs)) = []
as_string (some other) = []

-- `s, _ := m[key].(string)`
unfoldable pub string_claim : GoMap Any → Bytes → Bytes
string_claim raw key = as_string (lookup key raw)

pub record Claims : Type 0 where
  pub subject : Bytes
  pub tenant : Bytes
  pub scopes : List Bytes
  pub raw : GoMap Any

-- What `jwt.Parse` is told to check; an issuer or audience of `none` is not checked.
pub record ParserOptions : Type 0 where
  pub valid_methods : List Bytes
  pub issuer : Option Bytes
  pub audience : Option Bytes

-- `jwt.Token`, with `none` for claims that are not a `jwt.MapClaims`.
pub record ParsedToken : Type 0 where
  pub claims : Option (GoMap Any)
  pub valid : Bool

-- Packages keyfunc and jwt.
pub record TokenLibrary : Type 1 where
  pub Keys : Type 0
  pub new_keys : Bytes → Result GoError Keys
  pub parse : Keys → ParserOptions → Bytes → Result GoError ParsedToken

pub record Verifier (L : TokenLibrary) : Type 0 where
  pub jwks : L.Keys
  pub issuer : Bytes
  pub audience : Bytes

-- An empty or missing claim leaves the field at its zero value.
unfoldable pub claims_of : GoMap Any → Claims
claims_of mc = record {
  subject = string_claim mc (codes "sub");
  tenant = string_claim mc (codes "tenant");
  scopes =
      (let scope = string_claim mc (codes "scope") in
        if not (scope == []) then fields scope else []);
  raw = mc;
}

unfoldable pub accept_token : ParsedToken → Result GoError Claims
accept_token parsed = elim parsed.claims [
  | none ↦ err (codes "auth: invalid token")
  | some mc ↦ if not parsed.valid then err (codes "auth: invalid token") else ok (claims_of mc)
]

module _ (L : TokenLibrary) where
  unfoldable pub new_verifier : Bytes → Bytes → Bytes → Result GoError (Verifier L)
  new_verifier jwks_url issuer audience =
      if jwks_url == []
      then err (codes "auth: jwksURL is required")
      else elim (L.new_keys jwks_url) [
        | err e ↦ err e
        | ok jwks ↦ ok (record { jwks = jwks; issuer = issuer; audience = audience })
      ]

  unfoldable pub parser_options : Verifier L → ParserOptions
  parser_options v = record {
    valid_methods = codes "RS256" ∷ codes "ES256" ∷ [];
    issuer = if not (v.issuer == []) then some v.issuer else none;
    audience = if not (v.audience == []) then some v.audience else none;
  }

  unfoldable pub verify : Verifier L → Bytes → Result GoError Claims
  verify v token = do parsed ← L.parse v.jwks (parser_options v) token; accept_token parsed

-- The loop of `Claims.HasScope`.
unfoldable pub scope_among : Bytes → List Bytes → Bool
scope_among scope [] = false
scope_among scope (s ∷ scopes) = if s == scope then true else scope_among scope scopes

unfoldable pub has_scope : Claims → Bytes → Bool
has_scope c scope = scope_among scope c.scopes

unfoldable pub has_any_scope : Claims → List Bytes → Bool
has_any_scope c [] = false
has_any_scope c (s ∷ scopes) = if has_scope c s then true else has_any_scope c scopes
