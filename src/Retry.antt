-- ===== src/Retry.antt =====
-- pantry/retry: the circuit breaker (circuit.go) and the retry loop (retry.go).
pub mod Circuit
pub mod Attempts
