-- ===== src/Model.antt =====
-- frontend/src/app/global/model/api.ts: the enumerations and the messages of the service.
pub mod Enums
pub mod Messages
pub mod Methods
pub mod Samples
