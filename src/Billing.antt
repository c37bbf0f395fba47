-- ===== src/Billing.antt =====
-- Orders and payments (apps/api-gateway/src/modules/orders and payments).
pub mod Money
pub mod Store
pub mod Orders
pub mod Payments
pub mod Paid
pub mod Solvency
pub mod Interleaving
pub mod Service
pub mod Races
pub mod Settlement
pub mod Audit
pub mod Refunds
pub mod Views
pub mod Shown
