-- ===== src/Pipelines.antt =====
-- backend/internal/pipelines/retry.go: the retry of requests to CI services.
mod Retry
mod Bounded
mod Tests
