-- ===== src/Locks.antt =====
-- backend/internal/db/repositories/lock_repository.go: the locks on the keys of a source.
pub mod Table
mod Requests
mod Exclusion
mod Tests
