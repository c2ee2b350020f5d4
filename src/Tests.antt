-- ===== src/Tests.antt =====
-- Runs of the definitions at concrete inputs, and each theorem at an input that meets its
-- hypotheses.
mod Samples
mod Idempotency
mod Pagination
mod Blog
mod Contact
mod Sessions
mod Auth
mod Reading
mod Users
mod Flights
mod Startup
mod Server
