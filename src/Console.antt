-- ===== src/Console.antt =====
-- internal/console: the management API.
pub mod Accounts
