-- ===== src/Tests.antt =====
-- Runs of the model at concrete inputs, and each theorem with hypotheses or arguments applied at one.
mod Data
mod Subscriptions
mod Sessions
mod Connections
mod Channels
mod Managers
