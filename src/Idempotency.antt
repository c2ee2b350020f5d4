-- ===== src/Idempotency.antt =====
-- src/idempotency: a request that carries an idempotency key runs once, and its response is
-- replayed to every later request with that key.
pub mod Key
pub mod Store
pub mod Execute
pub mod Slots
pub mod Replay
pub mod Outcome
pub mod Table
pub mod Isolation
pub mod Flights
