-- ===== src/Manager.antt =====
-- opcua/session/server_session_manager.h and server_session_manager.cpp: the sessions of a server, by
-- their authentication tokens. The state and the operations on it stand in State, the password of an
-- identity token in Password, ActivateSession in Activation; the other modules hold the proofs.
pub mod State
pub mod Password
pub mod Activation
pub mod Removal
pub mod Exclusive
pub mod Creation
pub mod Credentials
