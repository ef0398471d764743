-- ===== src/Election.antt =====
-- backend/internal/services/leaderelect/elector.go: the election of the replica that runs the workers.
pub mod Elector
pub mod Bracketing
mod Tests
