-- ===== src/Lib.antt =====
-- maintainerd-sdk: the part of the SDK that decides who may do what.
--
-- A service that uses the SDK boots by `authz.Resolve`, which reads its configuration and returns a
-- guard. The guard stands in front of every HTTP route and gRPC method: it verifies the bearer token
-- by package auth, reduces the claims to a principal, looks the surface up in a permission table,
-- checks the class of the caller and the permission, and hands the principal to the handler in the
-- request's context. Permissions are grants: an action, which may be narrowed by a pattern over
-- resource names, and package mrn parses and matches those.
--
-- Files, and the code that they model:
--   Mrn           mrn/mrn.go: MRN, Pattern, Parse (parse), ParsePattern, MatchPattern, Matches and
--                 the checks on segments and paths. Its children: Grammar says what resources and
--                 patterns are and what a pattern covers, with no reference to the parsers; Split,
--                 Valid, ValidPattern and Parsing relate the parsers to it; Matching and Isolation
--                 relate the matcher to it. Faults says what is wrong with a text, first fault
--                 first; PathErrors, Rungs and Errors relate the parsers' errors to it.
--   Auth          auth/verifier.go: NewVerifier, Verify, the scope checks; Auth/Bearer the HTTP guard
--                 and the bearer header; Auth/Verified what a verified token went through; Auth/Protected
--                 what stands behind the guard. Auth/Discovery: auth/discovery.go, the discovery
--                 document of an issuer, and Document when it is found.
--   Authz/Grant, Authz/Principal      authz/authz.go: the grant grammar, Allows, HasAction, scopes.
--                 Entitlement is the specification, Actions and Decisions that the loops compute
--                 it, Confinement what follows for a caller. Authz/Grant/Forms relates a grant to its text.
--   Authz/Claims  authz/adapter.go: SDKVerify (sdk_verify), PrincipalFromClaims, ActorKindFromClaims.
--                 Kind is the class of a caller, Entries what the entries of a token become.
--   Authz/Surface, Authz/Permissions  authz/permissions.go: surfaces, classes of caller, rules, keys,
--                 Resolve, IsExempt and DeclaredPermissions. Table lists what is written in a table,
--                 Declared, Drift and Iteration relate the declared permissions to it,
--                 Reordered says that lookups do not depend on the order of a map, and Abstract
--                 is the table as a quotient that has no such order. Authz/Surface/Keys and
--                 Authz/Surface/Slashes are about the keys and prefixes that a path is looked up by.
--   Authz/Guard   authz/guard.go: the modes, the denials and Check. Ladder is the specification as
--                 relations, Complete and Admission that Check computes it, Denials what a refusal
--                 tells, Slashes what slashes behind a path change, Claimed what the entries of a token come to, Exempt which
--                 requests need no caller, Authenticator what is asked of a verifier. Store is Check
--                 on principals behind pointers, and Refined relates it to Check.
--   Authz/Transport   authz/guard.go: the middleware, RequirePermission, the two interceptors;
--                 Enforcement and Protected say what they let through to a handler.
--   Authz/Startup authz/startup.go: Resolve (resolve_guard) and the banner as its log lines; Ladder
--                 and EndToEnd say what a booted service enforces, Service and Streams when its
--                 handlers answer, Announced what its banner tells.
--   Client        the caller's side. Tokens: tokensource.go, the cached token source (token), the
--                 client-credentials grant and the token endpoint's answer; Fresh says how long a
--                 token is handed out, Endpoint what is accepted, Granted what a grant asks for,
--                 Scopes how a service reads the scopes. Assertion: the private_key_jwt grant,
--                 with Signed and Asserted on what it sends.
--                 Credentials: credentials.go, the client's interceptor; Guarded sets it against the
--                 guard, also on calls with an authorization of their own, Booted against a service
--                 that booted, Session over many calls with a cached source. Sdk: sdk.go, New and
--                 Close. Secret: secret/client.go, and Programs that call it.
--   Client/Tokens/Concurrent   Token as many goroutines run it: the steps of one call between its
--                 accesses of the mutex, the cache, the clock and fetch. Moves and Once are the invariants,
--                 Linear relates interleaved calls to the function token, Shared says how fresh a
--                 token is, Progress and Bounded that calls return and how soon.
--   Text          the functions of the Go packages strings, sort, unicode and unicode/utf8 that the
--                 code calls, by clauses over bytes.
--   Prelude       results, Boolean tests and lists over the native numbers.
--   Tests         runs on concrete inputs, and the theorems applied to them.
--
-- How the code is read:
--   A Go string is the list of its bytes. A Go map is the list of its entries in the order in which
--   one iteration meets them, with distinct keys where that matters. A nil pointer is `none`, also a
--   nil `*Principal`; a nil function field is `none`; a slice that may be nil is an optional list.
--   The error messages of package mrn are constructors, one for each place that makes one. A
--   context is what the code reads from it: the principal and the incoming "authorization" values.
--   A handler is a function of the request, or of the context; the gRPC request goes through unread.
--   `Unicode` is a parameter: which code points above ASCII are printable, and how `ToUpper` and
--   `ToLower` treat texts that are not ASCII. `TokenLibrary` is a parameter for the packages jwt and
--   keyfunc: it makes a key set from a URL, and parses a token under options.
--   No definition uses fuel that can run out: the loops on texts take the text's length, and a white
--   space character is at least one byte.
--   An instant is a number of nanoseconds from the zero time, and a duration is not negative, as the
--   fetch functions return no other; `expires_in` is the two's complement of a 64-bit integer. The
--   HTTP client, the PEM and RSA packages, the JWT signer, the random source, the gRPC dialler and the
--   generated gRPC client of the secret store are parameters.
--   The function `token` is one call alone, with the clock and the answer of fetch as arguments. In
--   Concurrent a call is named by a number, waits for the mutex, and in each step the clock and the
--   answer of fetch may be anything; a call that waits for the mutex cannot be interrupted, as in Go.
--
-- Not modelled: the logger, the JSON encoder and decoder, the timeout of an HTTP client, and the gRPC
-- dial options, which only pass on to libraries.
mod Prelude
pub mod Text
pub mod Mrn
pub mod Auth
pub mod Authz
mod Tests
pub mod Client
