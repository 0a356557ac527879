-- ===== src/Locking.antt =====
-- workers/app/utils/locking.py: locks on Redis keys, each with a random token and a time to live.
-- The server is the interface `Redis`; the two Lua scripts are written out over its commands. The
-- clock counts milliseconds; `clock n` is the reading number `n` of one call, and `world n` is what
-- other clients and the passing of time do to the server during sleep number `n`.
pub mod Defs
pub mod Exclusion
pub mod Waiting
pub mod Scope
pub mod System
mod Tests
