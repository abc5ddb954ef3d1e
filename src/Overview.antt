-- ===== src/Overview.antt =====
-- frontend/src/app/pages/overview/record-overview.component.ts: the page of one DNS record.
pub mod Resolve
pub mod Page
pub mod Runs
pub mod Streams
pub mod Tasks
pub mod Shown
pub mod Labels
mod Tests
