-- ===== src/Webhook.antt =====
-- The receiver of Flash's webhooks: app/services/flash_webhook_service.py.
pub mod Delivery
pub mod Recording
pub mod Processing
pub mod Header
pub mod Verification
mod Tests
