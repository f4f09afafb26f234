-- ===== src/Client/Secret/Programs.antt =====
-- Programs that use the secret client, over a store and over a specification of that store.
use mathlib.Core.Path.{subst}
use maintainerd_sdk.Prelude.{ℕ, Bool, ◌≡◌, refl, ap, Slice, Result, ok, err}
use maintainerd_sdk.Text.{Bytes}
use maintainerd_sdk.Auth.{GoError}
use maintainerd_sdk.Client.Secret.{
  PingResponse, GetResponse, ListResponse, Effect, SecretService, map_ok, respond, ping, setup, put,
  get, list, delete,
}

-- The methods of a store as a program sees them: the client's, or a specification's.
pub record Methods (V : Type 0) : Type 0 where
  pub ping : Effect V Bool
  pub setup : Bytes → Bytes → Effect V (Unit {0})
  pub put : Bytes → Slice ℕ → Effect V (Unit {0})
  pub get : Bytes → Effect V (Slice ℕ)
  pub list : Bytes → Effect V (Slice Bytes)
  pub delete : Bytes → Effect V (Unit {0})

-- `secret.New`
abbrev pub client : {W : Type 0} → SecretService W → Methods W
client c = record {
  ping = ping c;
  setup = setup c;
  put = put c;
  get = get c;
  list = list c;
  delete = delete c;
}

-- A program: it ends with a result, or it calls a method and goes on with what that returns.
pub data Program (A : Type 0) : Type 0 where
  done : A → Program A
  call_ping : (Result GoError Bool → Program A) → Program A
  call_setup : Bytes → Bytes → (Result GoError (Unit {0}) → Program A) → Program A
  call_put : Bytes → Slice ℕ → (Result GoError (Unit {0}) → Program A) → Program A
  call_get : Bytes → (Result GoError (Slice ℕ) → Program A) → Program A
  call_list : Bytes → (Result GoError (Slice Bytes) → Program A) → Program A
  call_delete : Bytes → (Result GoError (Unit {0}) → Program A) → Program A

unfoldable pub run : {V A : Type 0} → Methods V → Program A → V → A × V
run m (done a) v = (a, v)
run m (call_ping k) v = let (r, v') = m.ping v in run m (k r) v'
run m (call_setup b o k) v = let (r, v') = m.setup b o v in run m (k r) v'
run m (call_put key value k) v = let (r, v') = m.put key value v in run m (k r) v'
run m (call_get key k) v = let (r, v') = m.get key v in run m (k r) v'
run m (call_list p k) v = let (r, v') = m.list p v in run m (k r) v'
run m (call_delete key k) v = let (r, v') = m.delete key v in run m (k r) v'

-- The same outcome, and worlds that stay related.
abbrev pub Agree : {W V A : Type 0} → (W → V → Type 0) → A × W → A × V → Type 0
Agree R p q = (p.0 ≡ q.0) × R (p.1) (q.1)

-- A response with its field, or the same error.
abbrev pub Answers :
    {A B : Type 0} → (A → B → Type 0) → Result GoError A → Result GoError B → Type 0
Answers P (ok a) (ok b) = P a b
Answers P (err d) (err e) = d ≡ e
Answers P (ok a) (err e) = ⊥
Answers P (err d) (ok b) = ⊥

map_ok_answer :
    {A B : Type 0} (f : A → B) (x : Result GoError A) (y : Result GoError B)
    → Answers (λ a b. f a ≡ b) x y
    → map_ok f x ≡ y
map_ok_answer f (ok a) (ok b) h = ap ok h
map_ok_answer f (err d) (err e) h = ap err h
map_ok_answer f (ok a) (err e) h = absurd h
map_ok_answer f (err d) (ok b) h = absurd h

module _ {W V : Type 0} (R : W → V → Type 0) where
  abbrev pub Serves : {A B : Type 0} → (A → B → Type 0) → Effect W A → Effect V B → Type 0
  Serves P f g = (w : W) (v : V) → R w v → Answers P (f w).0 (g v).0 × R (f w).1 (g v).1

  -- The store answers every request as the specification does, from worlds that are related: with the
  -- specification's value in the field of its response, or with its error.
  pub record Implements (c : SecretService W) (d : Methods V) : Type 0 where
    pub ping : Serves (λ (r : PingResponse) b. r.setup_complete ≡ b) c.ping d.ping
    pub setup :
        (b o : Bytes)
        → Serves
            (λ (r : Unit {0}) u. r ≡ u)
            (c.setup (record { bootstrap_token = b; controller = o }))
            (d.setup b o)
    pub put :
        (k : Bytes) (x : Slice ℕ)
        → Serves (λ (r : Unit {0}) u. r ≡ u) (c.put (record { key = k; value = x })) (d.put k x)
    pub get : (k : Bytes) → Serves (λ (r : GetResponse) x. r.value ≡ x) (c.get k) (d.get k)
    pub list : (p : Bytes) → Serves (λ (r : ListResponse) ks. r.keys ≡ ks) (c.list p) (d.list p)
    pub delete : (k : Bytes) → Serves (λ (r : Unit {0}) u. r ≡ u) (c.delete k) (d.delete k)

  respond-Agree :
      {A B : Type 0} (f : A → B) (p : Result GoError A × W) (q : Result GoError B × V)
      → Answers (λ a b. f a ≡ b) (p.0) (q.0) × R (p.1) (q.1)
      → Agree R (respond f p) q
  respond-Agree f p q (e, r) = (map_ok_answer f (p.0) (q.0) e, r)

  -- One call, and the rest of the program from where it led.
  onward :
      (m : Methods W) (d : Methods V) {A B : Type 0} (k : B → Program A) (p : B × W) (q : B × V)
      → ((b : B) (w : W) (v : V) → R w v → Agree R (run m (k b) w) (run d (k b) v))
      → Agree R p q
      → Agree R (run m (k (p.0)) (p.1)) (run d (k (q.0)) (q.1))
  onward m d k p q ih (e, r) =
      subst (λ b. Agree R (run m (k (p.0)) (p.1)) (run d (k b) (q.1))) e (ih (p.0) (p.1) (q.1) r)

  -- The client over a store that implements a specification is that specification: every program
  -- ends with the same result on both, however its calls depend on earlier answers and errors, and
  -- the store stays an implementation of where the specification is.
  pub run-Implements :
      (c : SecretService W) (d : Methods V) {A : Type 0} (program : Program A) (w : W) (v : V)
      → Implements c d
      → R w v
      → Agree R (run (client c) program w) (run d program v)
  unfolding run ping setup put get list delete
  run-Implements c d (done a) w v imp r = (refl, r)
  run-Implements c d (call_ping k) w v imp r =
      onward (client c) d k _ _ (λ b w v. run-Implements c d (k b) w v imp)
        (respond-Agree (λ p. p.setup_complete) _ _ (imp.ping w v r))
  run-Implements c d (call_setup b o k) w v imp r =
      onward (client c) d k _ _ (λ b w v. run-Implements c d (k b) w v imp)
        (respond-Agree (λ (u : Unit {0}). u) _ _ (imp.setup b o w v r))
  run-Implements c d (call_put key value k) w v imp r =
      onward (client c) d k _ _ (λ b w v. run-Implements c d (k b) w v imp)
        (respond-Agree (λ (u : Unit {0}). u) _ _ (imp.put key value w v r))
  run-Implements c d (call_get key k) w v imp r =
      onward (client c) d k _ _ (λ b w v. run-Implements c d (k b) w v imp)
        (respond-Agree (λ p. p.value) _ _ (imp.get key w v r))
  run-Implements c d (call_list p k) w v imp r =
      onward (client c) d k _ _ (λ b w v. run-Implements c d (k b) w v imp)
        (respond-Agree (λ p. p.keys) _ _ (imp.list p w v r))
  run-Implements c d (call_delete key k) w v imp r =
      onward (client c) d k _ _ (λ b w v. run-Implements c d (k b) w v imp)
        (respond-Agree (λ (u : Unit {0}). u) _ _ (imp.delete key w v r))
