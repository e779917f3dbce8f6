-- ===== src/Raft.antt =====
-- broker/src/raft: the replicated state machines.
pub mod SessionState
pub mod SessionActorMap
