-- ===== src/Setup.antt =====
-- setup.rs: the desktop integration of the client and the migration from Salmon Watch.
pub mod Quoting
pub mod Entry
pub mod Install
pub mod Execute
pub mod Autostart
pub mod Migrate
