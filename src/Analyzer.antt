-- ===== src/Analyzer.antt =====
-- backend/internal/analyzer: the counts, the resources and the outputs of a state.
pub mod Labels
pub mod Legacy
pub mod Analyze
pub mod Listing
pub mod Sums
pub mod Totals
pub mod Ranking
pub mod Redaction
mod Tests
