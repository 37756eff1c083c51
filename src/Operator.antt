-- ===== src/Operator.antt =====
-- internal/operator: the reconciler and what it keeps.
pub mod Revisions
pub mod CycleCache
pub mod OpState
pub mod Objects
pub mod Cycle
pub mod Webhook
pub mod SpecChecks
pub mod Publisher
pub mod CycleVerdict
pub mod Reconcile
