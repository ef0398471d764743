-- ===== src/CredLifecycle.antt =====
-- backend/internal/credlifecycle/sweeper.go: the credentials that are revoked when a user loses
-- authority.
pub mod Sweeper
pub mod Sweep
pub mod Unknown
mod Tests
