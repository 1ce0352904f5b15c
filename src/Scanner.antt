-- ===== src/Scanner.antt =====
-- internal/scanner: the malware scanners as the handler sees them. The protocols of the engines are
-- outside; Multi combines their answers.
pub mod Multi
