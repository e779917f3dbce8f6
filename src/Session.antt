-- ===== src/Session.antt =====
-- broker/src/session: the state of one session, and the replicated storage of all of them.
pub mod State
pub mod Storage
pub mod ActorMap
mod Tests
