-- ===== src/Lib.antt =====
-- Verification of BormoStats, the analytics platform for marketplace sellers.
--
-- The program collects orders, stocks, prices and advertising data from Wildberries, Ozon and
-- Yandex Market into ClickHouse (collectors/, workers/app/tasks/*_collect.py), builds marts from
-- them (warehouse/, workers/app/sql), serves them over HTTP (backend/app), and changes prices and
-- bids at the marketplaces by rules (workers/app/tasks/repricer.py, bidder.py). Redis holds the
-- locks of the workers; ClickHouse holds the tables, among them the ledger of marketplace writes
-- and the journal of schema migrations. This library models the parts in which an error costs money
-- or data: the writes to a marketplace, the prices they carry, the locks that keep workers apart,
-- the HTTP client that they go through, the limiter of the API's requests, the sessions and keys of
-- its users, the events sent to their receivers, the migrations of the warehouse, and the
-- economics of articles that the reports show.
--
-- Base: shared names, Boolean tests, results with errors and stateful actions, texts as code
--   points.
-- Redis: the Redis commands of the locks as an interface with laws, with a table as an instance
--   (Redis.Table).
-- Number: floats as an interface whose `<` is a strict weak order, with an instance on whole
--   kopecks (Number.Whole) for runs at concrete prices. Only the order is assumed; no law of
--   arithmetic is, and that rounding is monotone only where a theorem names it.
-- Actions: workers/app/utils/marketplace_actions.py. Rows: the table sys_marketplace_actions, a
--   list of rows, and the queries on it. Defs: `execute_action` and its helpers, with faults of
--   the database and replies of the marketplace as explicit inputs. Settings: the environment
--   variables.
-- Locking: workers/app/utils/locking.py. Defs: acquire, renew, release and `lock_scope` over any
--   server of the interface `Redis`. System: clients and expiries in any order, as a step
--   relation.
-- Http: collectors/common/http_client.py and retry.py. Circuit: the circuit breaker. Retry: the
--   delays. Request: one attempt, the loop of attempts, and a request.
-- Repricer: the decision of workers/app/tasks/repricer.py on one rule and one card. Defs:
--   `desired_price` and the index guard. Plan: `step_limited` and `_plan`. Its rows are the
--   `PlannedAction` of Actions.Rows, which `execute_action` then carries out.
-- Bidder: `plan_bid_change` and `bid_executor` of workers/app/tasks/bidder.py.
-- Migrations: warehouse/apply_migrations.py. Statements: the splitter of SQL texts. Objects: the
--   tables and columns that a migration promises. Journal: the manifest, the journal and the
--   check of one against the other. Runs: apply and rollback under the lock, where an INSERT into
--   the journal or the lock table may raise. Trying and Attempt: `_apply_one`.
-- Chunking: workers/app/utils/chunking.py, the windows in which collectors load a range of days.
-- RateLimit: backend/app/core/ratelimit.py, the token buckets of the API's clients.
-- QueryCache: backend/app/services/query_cache.py and common/query_cache.py. Refinement: a run of
--   queries, expiries and rebuilds, with the cache and without it.
-- Sessions: backend/app/services/session_service.py and backend/app/core/security.py. Table: the
--   rows that a SELECT with FINAL reads. Secrets: stored hashes, over the interface `Crypto` of
--   the libraries. Tokens: the texts of session tokens and API keys. Defs: the methods of
--   SessionService over the interface `Hasher`, which Secrets fills.
-- Webhooks: workers/app/tasks/webhooks.py, common/webhooks.py and common/url_safety.py. Targets:
--   the validation of a URL. Signing: signatures and delays. Delivery: one attempt, the attempts
--   of a delivery one after another, where `send_task` and the insert of a row may raise, and the
--   subscriptions of an event.
-- Economics: the class AccrualEconomics of common/article_economics.py, and
--   common/ozon_buyouts.py. Rows and State: its fields. Accruals: `fee` and `add`. Buyouts:
--   `parse_buyouts` and `add_buyouts`. Allocation: `allocate`, `bind_ad_costs` and
--   `add_standardized_sale`. Realization: `add_wb_realization_row`. Amounts are whole numbers of
--   a unit in which all of them are whole, as decimals are exact; they are numbers already, so
--   the exceptions of `number` are not modelled.
--
-- Loops over lists are structural. The attempts of a request are bounded by the configuration, and
-- the loop recurs on their number. `acquire_lock` waits on a clock: its loop has fuel, and the
-- theorem on its end gives the fuel that is enough for a clock that goes forward. The windows of a
-- range have its length in days as fuel, which every window shortens. The attempts of a webhook
-- delivery have six as fuel, the limit of the code.
--
-- Parameters of the model: the resolution and the classes of network addresses, the replies and
-- the time of the network, the faults of ClickHouse, what a migration's SQL does to the tables,
-- Redis, random tokens, cryptography, and float arithmetic. Left out: the collectors and their
-- parsers, the SQL of marts and transforms, the runs of the repricer and the bidder over all
-- rules, the engine of article economics in floats, the HTTP API and its services apart from the
-- rate limiter, the query cache and the sessions, metrics and logging.
pub mod Base
pub mod Redis
pub mod Actions
pub mod Locking
pub mod Http
pub mod Number
pub mod Repricer
pub mod Bidder
pub mod Migrations
pub mod Economics
pub mod Chunking
pub mod RateLimit
pub mod QueryCache
pub mod Sessions
pub mod Webhooks
