-- ===== src/Transfers.antt =====
-- backend/internal/api/transfer.go: the copy of a state to another source, and its migration.
mod Pair
mod Transfer
mod Ordering
mod Locking
mod Preserved
mod Moved
mod Tests
