-- ===== src/Chunking.antt =====
-- workers/app/utils/chunking.py: the windows in which a range of dates or times is loaded. A date is
-- the number of its day, a time the number of its microsecond.
pub mod Defs
pub mod Dates
mod Tests
