-- ===== src/Deals.antt =====
-- Deals of the gateway (apps/api-gateway/src/modules/deals/deals.service.ts), in four parts.
pub mod Data
pub mod Methods
pub mod Stages
pub mod Transitions
pub mod Responsibles
pub mod Assigned
pub mod Shown
pub mod Reminders
