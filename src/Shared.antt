-- ===== src/Shared.antt =====
-- libs/shared: the constants that the services share, and the guard that reads the role lists.
pub mod Workflow
pub mod Access
