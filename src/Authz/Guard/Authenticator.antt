-- ===== src/Authz/Guard/Authenticator.antt =====
-- What a guard asks of the function that verifies its tokens, and whom it then admits.
use maintainerd_sdk.Prelude.{◌≡◌, sym, ap, ◌∙◌, ◌≢◌, ◌↔◌, false, [], some, ok}
use mathlib.Core.Option.{some-injective}
use mathlib.Core.Path.{subst}
use maintainerd_sdk.Text.{Bytes, Unicode}
use maintainerd_sdk.Authz.Principal.{Principal}
use maintainerd_sdk.Authz.Permissions.{is_exempt}
use maintainerd_sdk.Authz.Surface.{Surface}
use maintainerd_sdk.Authz.Guard.{Guard, Context, VerifyFunc, enforced, with_blanket}
use maintainerd_sdk.Authz.Guard.Ladder.{Admits, IsCaller, IsAuthenticating, Passes}

-- A verifier, and which principal a token stands for; the one computes the other, in every context.
pub record Authenticator : Type 1 where
  pub verify : VerifyFunc
  pub Vouches : Bytes → Principal → Type 0
  pub verify_iff :
      (ctx : Context) (token : Bytes) (p : Principal)
      → (verify ctx token ≡ ok (some p)) ↔ Vouches token p

enforced-IsAuthenticating : IsAuthenticating enforced
enforced-IsAuthenticating = (λ e. cc, λ e. cc)

module _ ⦃u : Unicode⦄ (a : Authenticator) (g : Guard) (ctx : Context) (s : Surface) where
  -- A token was presented that stands for a principal; `p` is that principal with the service's
  -- blanket actions, and it passes the allowlist.
  pub record IsAdmitted (token : Bytes) (p : Principal) : Type 0 where
    pub presented : token ≢ []
    pub stands_for : Principal
    pub vouched : a.Vouches token stands_for
    pub carries : p ≡ with_blanket g stands_for
    pub passes : Passes g ctx s p

  module _ (token : Bytes) (p : Principal) (mode : g.mode ≡ enforced)
      (verifies : g.verify ≡ some a.verify) (guarded : is_exempt g.permissions s ≡ false) where
    IsAdmitted-caller : IsCaller g ctx token p → Passes g ctx s p → IsAdmitted token p
    IsAdmitted-caller c passes =
        let same : a.verify ≡ c.verifier = some-injective _ _ (sym verifies ∙ c.configured) in
        record {
          presented = c.presented;
          stands_for = c.verified_as;
          vouched =
              (a.verify_iff ctx token c.verified_as).0 (ap (λ f. f ctx token) same ∙ c.verified);
          carries = c.carries;
          passes = passes;
        }

    IsAdmitted-sound : Admits g ctx s token p → IsAdmitted token p
    IsAdmitted-sound (Admits.development open_ m e) = absurd (cc)
    IsAdmitted-sound (Admits.verified open_ m c passes) = IsAdmitted-caller c passes

    IsAdmitted-complete : IsAdmitted token p → Admits g ctx s token p
    IsAdmitted-complete d =
        Admits.verified guarded (subst IsAuthenticating (sym mode) enforced-IsAuthenticating)
          (record {
            verifier = a.verify;
            configured = verifies;
            presented = d.presented;
            verified_as = d.stands_for;
            verified = (a.verify_iff ctx token d.stands_for).1 d.vouched;
            carries = d.carries;
          })
          d.passes

    -- An enforcing guard over an authenticator admits exactly whom the authenticator vouches for and
    -- the allowlist lets pass.
    pub Admits-IsAdmitted_iff : Admits g ctx s token p ↔ IsAdmitted token p
    Admits-IsAdmitted_iff = (IsAdmitted-sound, IsAdmitted-complete)
