-- ===== src/Domain.antt =====
-- cmd/montray-ui/src/domain: the state that the client keeps, the events that change it, and the
-- view of it that the window and the tray show.
pub mod Model
pub mod Event
pub mod Lifecycle
pub mod Snapshot
pub mod Reducer
