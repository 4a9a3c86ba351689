-- ===== src/Billing.antt =====
-- The billing subsystem: app/services/billing_service.py, billing_sync_service.py and the
-- repositories under app/repos that they write through.
pub mod Tables
pub mod Session
pub mod Repos
pub mod Entitlement
pub mod Environment
pub mod Fixtures
pub mod Apply
pub mod Unbilled
pub mod Fallback
pub mod Sync
mod Tests
pub mod Admin
pub mod Unresolved
pub mod Views
