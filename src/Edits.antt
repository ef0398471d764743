-- ===== src/Edits.antt =====
-- backend/internal/api/edit.go and backend/internal/db/repositories/state_edit_repository.go: the edit
-- plane, over the interface of the connectors (backend/internal/statesource/statesource.go).
pub mod Store
pub mod World
pub mod Guarded
mod Operate
mod Restore
mod Diff
mod Previews
mod Reflected
pub mod Recovery
mod Recovered
mod Surgery
mod History
mod Outcome
mod Undo
mod Retention
pub mod Memory
pub mod Keyless
mod Tests
mod PreviewTests
