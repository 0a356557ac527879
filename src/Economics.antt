-- ===== src/Economics.antt =====
-- common/article_economics.py, the class AccrualEconomics, and common/ozon_buyouts.py: what the
-- operations of the marketplaces add to the articles and to the pool of the rest. Decimals are
-- exact: an amount is a whole number of the smallest unit, and a quantity is whole.
pub mod Rows
pub mod State
pub mod Accruals
pub mod Buyouts
pub mod Allocation
pub mod Realization
pub mod Attribution
pub mod Balance
pub mod Reconciliation
pub mod Lines
pub mod History
pub mod Repeats
mod Tests
