-- ===== src/Billing/Sync.antt =====
-- app/services/billing_sync_service.py: the three periodic jobs of billing.
pub mod Lapse
pub mod Reconcile
pub mod Replay
