-- ===== src/Actions.antt =====
-- workers/app/utils/marketplace_actions.py: the ledger of marketplace writes. `execute_action`
-- reads the ledger for its key, simulates, blocks or calls the marketplace, and writes the rows.
-- A ClickHouse table is the list of its rows, oldest first, and a SELECT is what its text says.
-- A database call may raise; an insert that raises may have been written or not (`Fault`).
-- The marketplace is seen as the log of the calls that reached it, with their replies.
pub mod Settings
pub mod Rows
pub mod Defs
pub mod Ledger
pub mod Execute
pub mod Append
pub mod Runs
mod Tests
