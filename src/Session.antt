-- ===== src/Session.antt =====
-- opcua/session/server_session.h and server_session.cpp: a session's subscriptions, the cursor that
-- shares its publish responses between them, and its Browse continuation points. The state and the
-- subscription services stand in State, publishing in Publish, paging in Browse; the other modules hold
-- the proofs.
pub mod State
pub mod Publish
pub mod Browse
pub mod RoundRobin
pub mod Serving
pub mod Cursor
pub mod Requests
pub mod Paging
pub mod Resume
