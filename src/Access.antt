-- ===== src/Access.antt =====
-- proxy/app/shared/access_control.py: row-level access by roles, groups and names.
pub mod Policy
pub mod Levels
pub mod Agreement
mod Tests
