-- ===== src/Examples.antt =====
-- Tests of the model at concrete inputs, and the properties at inputs that meet their hypotheses.
mod Domain
mod Output
mod Settings
mod Client
mod Supervisor
mod Runtime
mod Stored
mod Placement
mod Views
mod Tray
mod Notices
mod Disk
mod Tokens
