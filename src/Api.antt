-- ===== src/Api.antt =====
-- apps/api/src/lib and plugins: time, business numbers, idempotency, rate limits.
pub mod Clock
pub mod Sequences
pub mod Idempotency
pub mod Limiter
