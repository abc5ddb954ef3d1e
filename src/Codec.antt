-- ===== src/Codec.antt =====
-- frontend/src/app/global/model/api.ts: the codecs of the messages.
pub mod Wire
pub mod Clauses
pub mod Messages
pub mod Base
pub mod Addresses
pub mod Zones
pub mod Certificates
pub mod Issuance
pub mod Records
pub mod Tasks
pub mod Settings
pub mod Json
pub mod Toy
pub mod Kinds
