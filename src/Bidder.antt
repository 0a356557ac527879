-- ===== src/Bidder.antt =====
-- workers/app/tasks/bidder.py: the bid that a rule plans, and the call that would set it. Bids are
-- numbers of the interface `Number`.
pub mod Defs
pub mod Bids
mod Tests
