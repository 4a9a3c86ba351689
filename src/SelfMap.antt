-- ===== src/SelfMap.antt =====
-- app/services/self_map_build.py: what the Assistant's own Treasure Map, its kind 10040, should list.
pub mod Keys
pub mod Probes
pub mod Duties
pub mod Offer
pub mod Listing
pub mod Lines
pub mod Versions
pub mod Tests
