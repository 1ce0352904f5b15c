-- ===== src/Tests.antt =====
-- Runs of the theorems on concrete inputs.
mod Data
mod Proxy
mod Gates
mod Runtime
mod Upkeep
mod Codec
mod Accounts
mod Console
mod Sessions
mod Logins
mod Management
mod Addresses
mod Slots
