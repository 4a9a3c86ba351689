-- ===== src/DutyMenu.antt =====
-- app/services/duty_menu_build.py: the Assistant's duties and its Duty Menu.
pub mod Rows
pub mod Relays
pub mod Menu
mod Tests
