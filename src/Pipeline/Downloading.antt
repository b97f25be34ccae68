-- ===== src/Pipeline/Downloading.antt =====
-- internal/pipeline/downloading.go: the tick that reconciles the transfers with the peer backend,
-- resolves the jobs whose candidate is finished, and tops the others up.
pub mod Pass
pub mod Reconcile
pub mod Resolve
pub mod Moved
pub mod Verdicts
