-- ===== src/Projection.antt =====
-- cmd/montray-ui/src/ui/projection.rs: the rows that the window shows and the texts of ages.
pub mod Rows
pub mod Ages
