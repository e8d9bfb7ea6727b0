-- ===== src/Tests.antt =====
-- The theorems at concrete inputs: an upload of five bytes by the user 1, in a database with one
-- document, and stores and queues that answer as each case needs.
pub mod Fixtures
pub mod Rows
pub mod Service
pub mod Sessions
pub mod Jobs
pub mod Keyring
pub mod Tokens
pub mod Downloads
pub mod Settings
pub mod Schema
pub mod Files
pub mod Routes
pub mod Accounts
