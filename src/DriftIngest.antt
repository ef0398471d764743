-- ===== src/DriftIngest.antt =====
-- backend/internal/services/driftingest/plan.go: the drift counts and the summary of a plan, and the
-- registry modules that it depends on.
pub mod Canon
pub mod Attrs
pub mod Summary
pub mod Modules
pub mod Rows
pub mod Counts
pub mod Marks
pub mod Masking
pub mod Truncation
mod Tests
