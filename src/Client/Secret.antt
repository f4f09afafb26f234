-- ===== src/Client/Secret.antt =====
-- secret/client.go: the client of a secret store. The generated gRPC client is a parameter.
pub mod Programs
use maintainerd_sdk.Prelude.{ℕ, Bool, List, Slice, Result, ok, err}
use maintainerd_sdk.Text.{Bytes}
use maintainerd_sdk.Auth.{GoError}

pub record SetupRequest : Type 0 where
  pub bootstrap_token : Bytes
  pub controller : Bytes

pub record PutRequest : Type 0 where
  pub key : Bytes
  pub value : Slice ℕ

pub record PingResponse : Type 0 where
  pub setup_complete : Bool

pub record GetResponse : Type 0 where
  pub value : Slice ℕ

pub record ListResponse : Type 0 where
  pub keys : Slice Bytes

-- What a call returns, and the world after it.
abbrev pub Effect : Type 0 → Type 0 → Type 0
Effect W A = W → Result GoError A × W

-- `secretv1.SecretServiceClient` over a world in which its calls have effects; a request of one field
-- is that field.
pub record SecretService (W : Type 0) : Type 0 where
  pub ping : Effect W PingResponse
  pub setup : SetupRequest → Effect W (Unit {0})
  pub put : PutRequest → Effect W (Unit {0})
  pub get : Bytes → Effect W GetResponse
  pub list : Bytes → Effect W ListResponse
  pub delete : Bytes → Effect W (Unit {0})

-- `if err != nil { return …, err }; return f(resp), nil`
abbrev pub map_ok : {A B : Type 0} → (A → B) → Result GoError A → Result GoError B
map_ok f (err e) = err e
map_ok f (ok a) = ok (f a)

abbrev pub respond : {W A B : Type 0} → (A → B) → Result GoError A × W → Result GoError B × W
respond f p = (map_ok f p.0, p.1)

module _ {W : Type 0} (c : SecretService W) where
  unfoldable pub ping : Effect W Bool
  ping w = respond (λ (r : PingResponse). r.setup_complete) (c.ping w)

  unfoldable pub setup : Bytes → Bytes → Effect W (Unit {0})
  setup bootstrap_token controller w =
      respond (λ (r : Unit {0}). tt)
        (c.setup (record { bootstrap_token = bootstrap_token; controller = controller }) w)

  unfoldable pub put : Bytes → Slice ℕ → Effect W (Unit {0})
  put key value w = respond (λ (r : Unit {0}). tt) (c.put (record { key = key; value = value }) w)

  unfoldable pub get : Bytes → Effect W (Slice ℕ)
  get key w = respond (λ (r : GetResponse). r.value) (c.get key w)

  unfoldable pub list : Bytes → Effect W (Slice Bytes)
  list prefix w = respond (λ (r : ListResponse). r.keys) (c.list prefix w)

  unfoldable pub delete : Bytes → Effect W (Unit {0})
  delete key w = respond (λ (r : Unit {0}). tt) (c.delete key w)
