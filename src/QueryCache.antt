-- ===== src/QueryCache.antt =====
-- backend/app/services/query_cache.py and common/query_cache.py: the cache of query results in
-- Redis and its generations.
pub mod Defs
pub mod Refinement
mod Tests
