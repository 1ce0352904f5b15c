-- ===== src/Policy.antt =====
-- internal/policy: the decision engine, the runtime that swaps it, and the validation of edits.
pub mod Engine
pub mod Params
pub mod Runtime
pub mod Settings
