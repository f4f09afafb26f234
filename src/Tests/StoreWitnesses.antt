-- ===== src/Tests/StoreWitnesses.antt =====
-- The theorems on what a verdict does not depend on, applied: slashes, sharing.
use maintainerd_sdk.Prelude.{
  ◌≡◌, refl, if◌then◌else◌, ◌∙◌, append_assoc, ◌≢◌, [], some, ok, err, arith, true,
}
use maintainerd_sdk.Text.{codes, ◌==◌, has_suffix}
use maintainerd_sdk.Authz.Guard.{Guard, check}
use maintainerd_sdk.Tests.Env.{ascii_only, run_text}
use maintainerd_sdk.Authz.Guard.Store.{VerifyPointer, Store, read_verdict, check_stored}
use maintainerd_sdk.Authz.Guard.Store.Refined.{verify_at, Keeps, IsCareful, check_stored-IsPure}
use maintainerd_sdk.Authz.Surface.Slashes.{slash, EndsTwice}
use maintainerd_sdk.Text.Laws.{has_suffix_iff}
use maintainerd_sdk.Authz.Guard.Slashes.{IsBlind, slashed_by, check-slashed_by}
use maintainerd_sdk.Tests.Data.{reader}
use maintainerd_sdk.Tests.Data.{guard, no_context, get_secret}

healthz_once : ¬ EndsTwice (codes "/healthz")
unfolding run_text
healthz_once (p, h) =
    let ends : has_suffix (codes "/healthz") (codes "//") ≡ true =
      (has_suffix_iff (codes "/healthz") (codes "//")).1 (p, h ∙ append_assoc p slash slash) in
    absurd (ground arith)

guard-IsBlind : IsBlind guard no_context
guard-IsBlind = record {
  predicate = λ exempt h s. absurd (ground arith);
  keys = λ key h s. absurd (ground arith);
  targets = λ s. refl;
  entries = (healthz_once, tt);
}

get_secret_filled : get_secret.path ≢ []
get_secret_filled = ground arith

check-slashed_by_example :
    check guard no_context (codes "good") (slashed_by 2 get_secret)
    ≡ check guard no_context (codes "good") get_secret
check-slashed_by_example =
    check-slashed_by guard no_context 2 get_secret (codes "good") guard-IsBlind get_secret_filled

-- A verifier that hands out the one principal that it keeps, at 0.
abbrev decision_cache : VerifyPointer
decision_cache ctx token st = (if token == codes "good" then ok (some 0) else err (codes "bad"), st)

abbrev one_principal : Store
one_principal = record { fresh = 1; cells = λ a. reader }

abbrev caching : Guard
caching = record guard { verify = verify_at (some decision_cache) one_principal }

decision_cache-IsCareful : IsCareful (some decision_cache)
decision_cache-IsCareful ctx token st = record { grows = omega arith; same = λ a h. refl }

check_stored-IsPure_example :
    (read_verdict (
        check_stored caching no_context
          (some decision_cache)
          (codes "good")
          get_secret
          one_principal)
      ≡ check caching no_context (codes "good") get_secret)
    × Keeps one_principal
        (check_stored caching no_context
          (some decision_cache)
          (codes "good")
          get_secret
          one_principal).1
check_stored-IsPure_example =
    check_stored-IsPure caching (some decision_cache) no_context get_secret (codes "good")
      one_principal refl decision_cache-IsCareful
