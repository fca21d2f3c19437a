-- ===== src/Client.antt =====
-- client/*: the js-free packages of the browser client.
pub mod Inflight
pub mod Sync
pub mod Outbox
pub mod Pane
pub mod Notices
pub mod Retry
pub mod Debounce
pub mod Place
pub mod Levels
pub mod Selections
