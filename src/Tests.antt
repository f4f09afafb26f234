-- ===== src/Tests.antt =====
-- The concrete runs of the model, and the theorems applied to them.
mod Env
mod Data
mod MrnTests
mod MrnWitnesses
mod AuthzWitnesses
mod GuardWitnesses
mod StoreWitnesses
mod TransportWitnesses
mod ClientWitnesses
mod ConcurrencyWitnesses
mod AuthWitnesses
