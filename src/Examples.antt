-- ===== src/Examples.antt =====
-- Concrete inputs: each theorem that has hypotheses, applied where they hold, and small runs.
mod Billing
mod Refunds
mod Tasks
mod Auth
mod Deals
mod Chat
mod Wake
mod Throttle
mod Users
mod Customers
mod Demo
mod NullBytes
mod Delivery
mod Realtime
mod Http
