-- ===== src/Channel.antt =====
-- opcua/transport/binary/secure_channel.h, secure_channel.cpp, client_secure_channel.h and
-- client_secure_channel.cpp: the secure channel of a connection, on the server and on the client.
pub mod Conversation
pub mod Handshake
pub mod Symmetric
pub mod Asymmetric
pub mod Server
pub mod Client
pub mod Exchange
pub mod Pairing
