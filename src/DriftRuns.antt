-- ===== src/DriftRuns.antt =====
-- backend/internal/db/repositories/drift_repository.go and
-- backend/internal/services/driftreconcile/reconciler.go: who may claim a dispatched drift run.
pub mod Runs
pub mod Claims
mod Tests
