-- ===== src/Http.antt =====
-- collectors/common/http_client.py and collectors/common/retry.py: the JSON client of the
-- marketplace APIs, with its retries and its circuit breaker. Time is counted in milliseconds.
-- What the network and the clock do during attempt `n` is `Exchange` number `n`.
pub mod Retry
pub mod Circuit
pub mod Request
pub mod Bounds
pub mod Tripping
pub mod Breaker
mod Tests
