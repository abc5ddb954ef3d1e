-- ===== src/RecordForm.antt =====
-- frontend/src/app/pages/home/drawers/record-form/record-form-drawer.component.ts: the form of a
-- DNS record.
pub mod Form
pub mod Saving
pub mod Runs
pub mod Steps
mod Tests
