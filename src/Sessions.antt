-- ===== src/Sessions.antt =====
-- backend/app/services/session_service.py and backend/app/core/security.py: the tokens of browser
-- sessions and of API keys, passwords, and the life of a session.
pub mod Table
pub mod Latest
pub mod Changes
pub mod Secrets
pub mod Hashing
pub mod Tokens
pub mod RoundTrip
pub mod Keys
pub mod Defs
pub mod Revocation
pub mod Answers
pub mod Authority
pub mod Life
pub mod Kept
pub mod Forever
pub mod Passwords
mod Toy
mod Tests
