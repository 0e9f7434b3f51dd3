-- ===== src/Binary.antt =====
-- opcua/transport/binary: the OPC UA Binary transport.
pub mod Codec
pub mod Identifiers
pub mod Bodies
pub mod Crypto
pub mod Protocol
