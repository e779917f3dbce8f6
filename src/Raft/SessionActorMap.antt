-- ===== src/Raft/SessionActorMap.antt =====
-- broker/src/raft/session_actor_map/store.rs and types.rs: the state machine that every node runs over the
-- replicated log of session owners. A message to the session manager of the node is an effect. The log
-- identifier is its index, and a clock reading is part of each entry, as the clock of the node that
-- applies it.
pub mod Owners
pub mod Fencing
mod Tests
use yed_mq.Base.{
  ℕ, Bool, true, false, not, ◌&&◌, Option, none, some, List, [], ◌∷◌, ◌++◌, ◌==◌, if◌then◌else◌,
  Text,
}
use yed_mq.Session.ActorMap.{
  SessionInstanceId, SessionActorMapEntry, SessionActorMapStorage, ExpiredSession, RenewSession,
  same_instance, session_lease_renew, register_session_actor, unregister_session_actor,
}
use yed_mq.Session.ActorMap

pub data SessionActorMapRequest : Type 0 where
  register_session : Text → Text → ℕ → SessionActorMapRequest
  unregister_session : Text → Text → SessionInstanceId → SessionActorMapRequest
  clean_expired_sessions : List ExpiredSession → SessionActorMapRequest
  session_lease_renew_request : List RenewSession → SessionActorMapRequest

pub data SessionActorMapResponse : Type 0 where
  no_response : SessionActorMapResponse
  registered : SessionInstanceId → SessionActorMapResponse

pub data EntryPayload : Type 0 where
  blank : EntryPayload
  normal : SessionActorMapRequest → EntryPayload
  membership : ℕ → EntryPayload

pub record Entry : Type 0 where
  pub index : ℕ
  pub now : ℕ
  pub payload : EntryPayload

-- Messages to the session manager of this node.
pub data Effect : Type 0 where
  force_stop : Text → Text → SessionInstanceId → Effect
  remove_expired : Text → Text → SessionInstanceId → Effect

pub record StateMachine : Type 0 where
  pub last_applied : Option ℕ
  pub last_membership : ℕ
  pub session_actor_map : SessionActorMapStorage

unfoldable pub start : StateMachine
unfolding ActorMap.new
start = record { last_applied = none; last_membership = 0; session_actor_map = ActorMap.new }

-- The node, and the length of a lease.
module _ (node_id session_ttl : ℕ) where
  abbrev pub stop_previous :
      Text → Text → SessionInstanceId → Option SessionActorMapEntry → List Effect
  stop_previous tenant client id none = []
  stop_previous tenant client id (some previous) =
      if (previous.node_id == node_id) && not (same_instance previous.instance_id id)
      then force_stop tenant client previous.instance_id ∷ []
      else []

  unfoldable pub clean_sessions :
      SessionActorMapStorage → List ExpiredSession → SessionActorMapStorage × List Effect
  clean_sessions s [] = (s, [])
  clean_sessions s (x ∷ xs) =
      let (s', effects) =
        clean_sessions (unregister_session_actor s x.tenant_id x.session_id x.session_instance_id)
          xs in
      (
        s',
        if x.node_id == node_id
            then remove_expired x.tenant_id x.session_id x.session_instance_id ∷ effects
            else effects,
      )

  unfoldable pub apply_request :
      SessionActorMapStorage
      → ℕ
      → ℕ
      → SessionActorMapRequest
      → SessionActorMapStorage × SessionActorMapResponse × List Effect
  apply_request s index now (register_session tenant client node) =
      let id : SessionInstanceId = record { log_index = index } in
      let (s', previous) = register_session_actor s tenant client node id session_ttl now in
      (s', registered id, stop_previous tenant client id previous)
  apply_request s index now (unregister_session tenant client id) =
      (unregister_session_actor s tenant client id, no_response, [])
  apply_request s index now (clean_expired_sessions sessions) =
      let (s', effects) = clean_sessions s sessions in (s', no_response, effects)
  apply_request s index now (session_lease_renew_request sessions) =
      (session_lease_renew s sessions session_ttl now, no_response, [])

  unfoldable pub apply_payload :
      StateMachine → ℕ → ℕ → EntryPayload → StateMachine × SessionActorMapResponse × List Effect
  apply_payload sm index now blank = (sm, no_response, [])
  apply_payload sm index now (normal request) =
      let (s, reply, effects) = apply_request sm.session_actor_map index now request in
      (record sm { session_actor_map = s }, reply, effects)
  apply_payload sm index now (membership m) = (record sm { last_membership = m }, no_response, [])

  unfoldable pub apply_entry :
      StateMachine → Entry → StateMachine × SessionActorMapResponse × List Effect
  apply_entry sm e =
      apply_payload (record sm { last_applied = some e.index }) e.index e.now e.payload

  unfoldable pub apply :
      StateMachine → List Entry → StateMachine × List SessionActorMapResponse × List Effect
  apply sm [] = (sm, [], [])
  apply sm (e ∷ es) =
      let (sm1, reply, effects) = apply_entry sm e in
      let (sm2, replies, more) = apply sm1 es in (sm2, reply ∷ replies, effects ++ more)
