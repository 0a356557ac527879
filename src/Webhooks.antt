-- ===== src/Webhooks.antt =====
-- workers/app/tasks/webhooks.py, common/webhooks.py and common/url_safety.py: which targets an event
-- is sent to, how often, and what the log says of it.
pub mod Targets
pub mod Public
pub mod Signing
pub mod Delivery
pub mod Steps
pub mod Attempts
pub mod Pinning
mod Tests
