-- ===== src/StateSync.antt =====
-- backend/internal/services/statesync/syncer.go with the rows of state_analyses: keeping the stored
-- analyses of a source up to date.
mod Marker
mod Syncer
mod Fleet
mod Passes
mod Freshness
mod Tests
