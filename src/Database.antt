-- ===== src/Database.antt =====
-- internal/database: the SQLite store of the bridge.
pub mod Table
pub mod Rows
pub mod Store
pub mod Pending
pub mod Delivery
pub mod Pairings
pub mod Migrations
pub mod Listings
pub mod Targets
pub mod Frame
pub mod Frames
pub mod Blocklist
pub mod Stats
pub mod Export
pub mod Digests
pub mod Retention
pub mod Queue
pub mod Cleanup
pub mod Sweeps
