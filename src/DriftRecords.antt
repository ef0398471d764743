-- ===== src/DriftRecords.antt =====
-- backend/internal/db/repositories/drift_record_repository.go: the life of a drift record.
mod Records
mod Lifecycle
mod Finality
mod Tests
