-- ===== src/Mrn/Rungs.antt =====
-- The checks of both parsers from left to right, and the rung that an error is of.
use maintainerd_sdk.Prelude.{
  ◌≡◌, ◌↔◌, true, false, [], arith, ok, err, Bool, Result, refuse_if, map_err, ◌>>◌,
}
use maintainerd_sdk.Text.{Bytes, ◌==◌}
use maintainerd_sdk.Text.Laws.{eq_iff}
use maintainerd_sdk.Mrn.{
  PathError, MrnError, no_prefix, part_count, service_required, bad_service, bad_tenant,
  bad_project, bad_path,
}
use maintainerd_sdk.Mrn.Faults.{PartFault}

-- The checks of both parsers, by their tests.
abbrev pub ladder :
    {A : Type 0} → Bool → Bool → Bool → Bool → Result PathError (Unit {0}) → A → Result MrnError A
ladder unnamed a b c path x = do
  refuse_if unnamed service_required
  refuse_if a bad_service
  refuse_if b bad_tenant
  refuse_if c bad_project
  map_err bad_path path
  ok x

-- The rung that an error is of.
abbrev pub Rung : Bool → Bool → Bool → Bool → Result PathError (Unit {0}) → MrnError → Type 0
Rung unnamed a b c path service_required = unnamed ≡ true
Rung unnamed a b c path bad_service = (unnamed ≡ false) × (a ≡ true)
Rung unnamed a b c path bad_tenant = (unnamed ≡ false) × (a ≡ false) × (b ≡ true)
Rung unnamed a b c path bad_project = (unnamed ≡ false) × (a ≡ false) × (b ≡ false) × (c ≡ true)
Rung unnamed a b c path (bad_path e) =
    (unnamed ≡ false) × (a ≡ false) × (b ≡ false) × (c ≡ false) × (path ≡ err e)
Rung unnamed a b c path no_prefix = ⊥
Rung unnamed a b c path part_count = ⊥

pub ladder_iff :
    {A : Type 0} (unnamed a b c : Bool) (path : Result PathError (Unit {0})) (x : A) (e : MrnError)
    → (ladder unnamed a b c path x ≡ err e) ↔ Rung unnamed a b c path e
ladder_iff true a b c path x e = ground arith
ladder_iff false true b c path x e = ground arith
ladder_iff false false true c path x e = ground arith
ladder_iff false false false true path x e = ground arith
ladder_iff false false false false (ok u) x e = ground arith
ladder_iff false false false false (err k) x e = ground arith

module _ (IsPart : Bytes → Type 0) (IsFault : Bytes → PathError → Type 0) where
  -- A test of a part tells whether it is none.
  abbrev pub Tests : Bool → Bytes → Type 0
  Tests bad s = ((bad ≡ true) ↔ (¬ IsPart s)) × ((bad ≡ false) ↔ IsPart s)

  pub Rung-fault :
      (s t p d : Bytes) (b1 b2 b3 : Bool) (path : Result PathError (Unit {0})) (e : MrnError)
      → Tests b1 s
      → Tests b2 t
      → Tests b3 p
      → ((k : PathError) → (path ≡ err k) ↔ IsFault d k)
      → Rung (s == []) b1 b2 b3 path e ↔ PartFault IsPart IsFault s t p d e
  Rung-fault s t p d b1 b2 b3 path (bad_path k) h1 h2 h3 hp = ground (arith, eq_iff s [], hp k)
  Rung-fault s t p d b1 b2 b3 path e h1 h2 h3 hp = ground (arith, eq_iff s [])
