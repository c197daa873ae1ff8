-- ===== src/Metrics.antt =====
-- internal/metrics: the metric backend, its Prometheus implementation and the cache in front of it.
pub mod Source
pub mod Prometheus
pub mod Cache
