-- ===== src/Store.antt =====
-- internal/store: the tables, and the SQL that reads and writes them.
pub mod Db
pub mod Cursors
pub mod Scan
pub mod Insert
pub mod Guards
pub mod Crises
pub mod Emergent
pub mod Verification
pub mod Withdraw
pub mod Tx
pub mod RoundTrip
pub mod Listing
pub mod Users
pub mod Exports
pub mod Stats
pub mod Profile
pub mod Pins
