-- ===== src/Resilience.antt =====
-- What keeps the service up: internal/storage/sqlite/circuitbreaker.go and retry.go, and the limiter
-- of internal/http/rate_limiter.go.
pub mod Breaker
pub mod Retry
pub mod Limiter
