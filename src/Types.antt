-- ===== src/Types.antt =====
-- opcua/types: the built-in data types that the other modules use.
pub mod Status
pub mod NodeId
pub mod Variant
pub mod Duration
