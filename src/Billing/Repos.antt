-- ===== src/Billing/Repos.antt =====
-- The repositories of app/repos that billing uses, one module for each table.
pub mod Nsec
pub mod Subscriptions
pub mod Candidates
pub mod Events
pub mod Plans
