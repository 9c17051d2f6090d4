-- ===== src/Schema.antt =====
-- The VDA5050 messages: include/syrius_orbit/vda5050_schemas.
pub mod Enums
pub mod StateEnums
pub mod ZoneEnums
pub mod FactSheetEnums
pub mod Shapes
pub mod Messages
pub mod State
pub mod Order
pub mod ZoneSet
pub mod FactSheet
