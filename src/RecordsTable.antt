-- ===== src/RecordsTable.antt =====
-- frontend/src/app/pages/home/sections/records-table/records-table.component.ts: the table of DNS
-- records. Each `subscribe` leaves a continuation in `pending`, which an event runs with the
-- answer; the calls of NotifyService and the dialogs are kept in `notices`, oldest first.
pub mod Purpose
pub mod State
pub mod Loading
pub mod Resolved
pub mod Certificates
pub mod Spinners
pub mod Polling
mod Tests
