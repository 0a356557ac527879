-- ===== src/RateLimit.antt =====
-- backend/app/core/ratelimit.py: a token bucket for each client of the API, and the buckets of the
-- clients seen last. The clock counts microseconds. Tokens are counted exactly, in units of which
-- 60,000,000 are one token: a rate of `burst / 60` tokens a second is `burst` units a microsecond.
pub mod Defs
pub mod Bucket
pub mod Clients
mod Tests
