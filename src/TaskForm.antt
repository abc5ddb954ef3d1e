-- ===== src/TaskForm.antt =====
-- frontend/src/app/pages/home/drawers/task-form/task-form-drawer.component.ts: the form for the
-- webhook tasks of a record.
pub mod Triggers
pub mod Headers
pub mod Form
mod Tests
