-- ===== src/StateSource.antt =====
-- backend/internal/statesource/roots.go: the paths on the server that a source may name.
pub mod Roots
pub mod Containment
mod Tests
