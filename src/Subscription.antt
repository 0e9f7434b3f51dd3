-- ===== src/Subscription.antt =====
-- opcua/session/server_subscription.h and server_subscription.cpp: one subscription of a session. The
-- state and the parameters stand in State, the publishing side in Publishing, the monitored items in
-- Backing and Items, and the notifications that come from the backing subscription in Notifications; the other
-- modules hold the proofs.
pub mod State
pub mod Publishing
pub mod Cycle
pub mod Retransmit
pub mod Acknowledge
pub mod Delivery
pub mod Backing
pub mod Items
pub mod Notifications
pub mod QueueLimit
pub mod Deletion
