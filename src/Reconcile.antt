-- ===== src/Reconcile.antt =====
-- lib/stellar/registryReconciliation.ts: the audit of the persisted anchors and corridors against the
-- reviewed registries. `Reconcile/Types` has the data, `Reconcile/Audit` the audits, `Reconcile/Report`
-- the result, `Reconcile/Plan` the repair plan; `Reconcile/Drift`, `Reconcile/Counts` and
-- `Reconcile/Safety` prove what they promise.
pub mod Types
pub mod Audit
pub mod Associations
pub mod Report
pub mod Result
pub mod Plan
pub mod Counts
pub mod Agreement
pub mod Drift
pub mod Safety
pub mod Evidence
mod Tests
