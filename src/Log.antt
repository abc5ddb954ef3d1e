-- ===== src/Log.antt =====
-- frontend/src/app/pages/home/drawers/log/log-drawer.component.ts: the drawer that shows the log of
-- the service.
pub mod Parse
pub mod Lines
pub mod Fields
pub mod Stream
mod Tests
