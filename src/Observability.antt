-- ===== src/Observability.antt =====
-- internal/observability: the scaler's own instruments, its readiness, and the HTTP server.
pub mod Collectors
pub mod Instruments
pub mod Health
pub mod Server
