-- ===== src/Scheduler.antt =====
-- backend/internal/services/scheduler/scheduler.go, with the claim of
-- backend/internal/db/repositories/schedule_repository.go: which schedules fire.
pub mod Runner
pub mod Firing
mod Tests
