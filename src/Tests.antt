-- ===== src/Tests.antt =====
-- Concrete inputs: the theorems applied where their hypotheses hold, and runs of the code.
mod Doubles
mod Data
mod Orders
mod Tokens
mod Breaker
mod Live
mod Notices
mod Uploads
mod Limits
mod Handlers
mod Auth
mod Relays
mod Payments
mod Routes
mod Zones
