-- ===== src/Proxy.antt =====
-- internal/proxy: the handler that intercepts downloads.
pub mod Config
pub mod Download
pub mod Admission
pub mod Recheck
pub mod Forward
pub mod Handler
pub mod History
