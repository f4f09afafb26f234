-- ===== src/Client/Credentials/Attached.antt =====
-- What the guard of a service reads of the token that a client attached.
use maintainerd_sdk.Prelude.{◌≡◌, refl, ◌≢◌, [], ◌∷◌, ◌++◌, none, some, arith, ok, err}
use maintainerd_sdk.Text.{Bytes, codes, ◌==◌, equal_fold}
use maintainerd_sdk.Text.Space.{trim_space, trim_left, trim_right, skip}
use maintainerd_sdk.Auth.Bearer.{bearer}
use maintainerd_sdk.Authz.Guard.{Context}
use maintainerd_sdk.Authz.Transport.{bearer_from_metadata}
use maintainerd_sdk.Client.Credentials.{TokenAnswer, Outgoing, attach}

-- The context of the service for a call with these values.
abbrev pub received : Outgoing → Context
received outgoing = record { principal = none; incoming_authorization = some outgoing }

-- The context in which a service judges the call of a client whose credentials answered so.
abbrev pub called : TokenAnswer → Context
called answer = received (attach answer [])

-- The token that a service is to see: none if the credentials fail or are anonymous.
abbrev pub intended : TokenAnswer → Bytes
intended (err e) = []
intended (ok tok) = trim_space tok

-- The token that a service is to see of a call that goes out with these values of its own: the
-- first of them comes before the credentials.
abbrev pub presented : TokenAnswer → Outgoing → Bytes
presented answer [] = intended answer
presented answer (own ∷ outgoing) = bearer own

bearer-append : (tok : Bytes) → tok ≢ [] → bearer (codes "Bearer " ++ tok) ≡ trim_space tok
unfolding bearer equal_fold ◌==◌
bearer-append [] h = absurd (h refl)
bearer-append (c ∷ tok) h = ground arith

-- The token that the guard of the service reads is the one that the credentials gave.
pub bearer_attached :
    (answer : TokenAnswer) → bearer_from_metadata (called answer) ≡ intended answer
unfolding bearer_from_metadata attach
bearer_attached (err e) = refl
bearer_attached (ok []) = unfold ◌==◌ trim_space trim_left trim_right skip in refl
bearer_attached (ok (c ∷ tok)) = unfold ◌==◌ in bearer-append (c ∷ tok) (ground arith)

-- A value of the call's own stays the first, whatever is attached behind it.
pub own_first :
    (answer : TokenAnswer) (own : Bytes) (outgoing : Outgoing)
    → bearer_from_metadata (received (attach answer (own ∷ outgoing))) ≡ bearer own
unfolding bearer_from_metadata attach
own_first (err e) own outgoing = refl
own_first (ok []) own outgoing = unfold ◌==◌ in refl
own_first (ok (c ∷ tok)) own outgoing = unfold ◌==◌ in refl

pub presented_attached :
    (answer : TokenAnswer) (outgoing : Outgoing)
    → bearer_from_metadata (received (attach answer outgoing)) ≡ presented answer outgoing
presented_attached answer [] = bearer_attached answer
presented_attached answer (own ∷ outgoing) = own_first answer own outgoing
