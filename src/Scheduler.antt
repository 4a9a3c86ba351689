-- ===== src/Scheduler.antt =====
-- The auto-scheduler: app/services/scheduler.py decides, app/cronjobs/scheduler.py admits.
pub mod Routing
pub mod Quota
pub mod Leader
pub mod Ranking
pub mod Cycle
mod Tests
