-- ===== src/Repricer.antt =====
-- workers/app/tasks/repricer.py: the price that a rule asks for, and the change that is planned.
-- Prices are numbers of the interface `Number`; times are seconds.
pub mod Defs
pub mod Plan
pub mod Bounds
pub mod Steps
mod Tests
