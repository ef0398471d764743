-- ===== src/StateOps.antt =====
-- backend/internal/stateops/stateops.go: `terraform state rm` and `terraform state mv` on the JSON
-- of a state file.
pub mod Address
pub mod Block
pub mod Edit
pub mod Saved
pub mod Popping
pub mod Removal
pub mod Renaming
pub mod RoundTrip
pub mod Conservation
pub mod AddressText
mod Tests
