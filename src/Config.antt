-- ===== src/Config.antt =====
-- frontend/src/app/pages/home/drawers/config/config-drawer.component.ts: the drawer of the
-- configuration. The controls that are neither loaded nor saved (`webPort`, `certificatePath`,
-- `keyPath` and `database`) are left out.
pub mod Form
pub mod Settings
pub mod Recipients
mod Tests
