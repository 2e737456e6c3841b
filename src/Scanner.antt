-- ===== src/Scanner.antt =====
-- web3/internal/service/scanner.go with the repositories that it writes to: the chain scanner, from
-- the cursor of a chain to the stored transactions. `World` has the state, `Store` the repositories,
-- `Native` and `Transfer` the scan of a block, `Chain` the scan from the cursor.
pub mod World
pub mod Store
pub mod Native
pub mod Transfer
pub mod Chain
pub mod Extends
pub mod Written
pub mod NativeSteps
pub mod Steps
pub mod Parties
pub mod Saved
pub mod Covers
pub mod Cursor
pub mod Resume
