-- ===== src/Auth.antt =====
-- internal/auth: console logins, session tokens, the middleware and the handlers of /api/auth.
pub mod Token
pub mod Limiter
pub mod Session
pub mod Handlers
