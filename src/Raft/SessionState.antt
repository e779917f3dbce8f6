-- ===== src/Raft/SessionState.antt =====
-- broker/src/raft/session_state/store.rs and types.rs: the state machine that every node runs over the
-- replicated log of session commands, with its queue of payloads to delete.
--
-- The log identifier is its index, the part the code reads. The payload store is a parameter, a
-- function from keys to bytes; membership entries change only the membership, which stands as a
-- number. The write of the queue to RocksDB is left out. A clock reading is part of each entry: the
-- code reads the clock of the node that applies the entry.
pub mod Safety
pub mod Answers
pub mod Purge
mod Tests
use yed_mq.Base.{
  ℕ, Bool, true, false, Option, none, some, List, [], ◌∷◌, ◌++◌, ◌==◌, if◌then◌else◌, Text, Result,
  ok, err,
}
use yed_mq.Inflight.{Inflight, mark_delivery_started}
use yed_mq.Session.State.{SessionState, ProtocolVersion, QoS}
use yed_mq.Session.State.QoS.{at_most_once, at_least_once, exactly_once}
use yed_mq.Session.Storage.{
  SessionStateStorage, SessionStateStorageError, create_session_state, delete_session_state,
  get_session_state, write_session, inflight_discard_unsent, inflight_register_tx_packet,
  inflight_register_rx_packet,
}
use yed_mq.Session.Storage
use yed_mq.Session.Storage.Queue.{append_to_pending_queue, pop_from_pending_queue}
use yed_mq.Session.Storage.Updates.{
  inflight_next_state, inflight_clean_finished_items, inflight_get_current_packet_key,
  subscribe_topic_with_options, unsubscribe_topic, update_connection_state,
}

pub data SessionStateRequest : Type 0 where
  create_state : Text → Text → ℕ → Option ProtocolVersion → Option ℕ → SessionStateRequest
  delete_state : Text → Text → Option ℕ → SessionStateRequest
  register_rx_packet : Text → Text → ℕ → ℕ → Text → SessionStateRequest
  register_tx_packet : Text → Text → ℕ → ℕ → Text → Bool → SessionStateRequest
  start_delivery : Text → Text → ℕ → Text → SessionStateRequest
  discard_packet : Text → Text → ℕ → Text → SessionStateRequest
  get_current_packet : Text → Text → ℕ → SessionStateRequest
  advance_packet : Text → Text → ℕ → SessionStateRequest
  clean_finish_items : Text → Text → SessionStateRequest
  append_pending : Text → Text → Text → SessionStateRequest
  pop_pending : Text → Text → SessionStateRequest
  subscribe : Text → Text → Text → ℕ → Bool → Bool → SessionStateRequest
  unsubscribe : Text → Text → Text → SessionStateRequest
  update_connection : Text → Text → Option ℕ → Option ℕ → SessionStateRequest

pub data SessionStateResponse : Type 0 where
  start_delivery_result : Bool → SessionStateResponse
  current_packet_result : Option Text → SessionStateResponse
  register_tx_response : Result SessionStateStorageError (Unit {0}) → SessionStateResponse
  register_rx_response : Result SessionStateStorageError (Unit {0}) → SessionStateResponse
  pop_result : Option Text → Option (List ℕ) → SessionStateResponse
  no_response : SessionStateResponse

pub data EntryPayload : Type 0 where
  blank : EntryPayload
  normal : SessionStateRequest → EntryPayload
  membership : ℕ → EntryPayload

pub record Entry : Type 0 where
  pub index : ℕ
  pub now : ℕ
  pub payload : EntryPayload

pub record PayloadGcItem : Type 0 where
  pub delete_after_log_index : ℕ
  pub key : Text
  pub payload_deleted : Bool

pub record StateMachine : Type 0 where
  pub last_applied : Option ℕ
  pub last_membership : ℕ
  pub storage : SessionStateStorage
  pub payload_gc_queue : List PayloadGcItem

-- A reply, or the panic of `QoS::from` on a number above 2.
pub data Applied : Type 0 where
  replied : StateMachine → SessionStateResponse → Applied
  panicked : Applied

pub qos_of : ℕ → Option QoS
qos_of n =
    if n == 0
    then some at_most_once
    else if n == 1
    then some at_least_once
    else if n == 2
    then some exactly_once
    else none

unfoldable pub schedule_payload_gc : StateMachine → ℕ → Text → StateMachine
schedule_payload_gc sm index key = record sm {
  payload_gc_queue =
      sm.payload_gc_queue
      ++ record { delete_after_log_index = index; key = key; payload_deleted = false } ∷ [];
}

-- `if let Some(key) = freed_key { self.schedule_payload_gc(index, key) }`
unfoldable pub schedule_opt : StateMachine → ℕ → Option Text → StateMachine
schedule_opt sm index none = sm
schedule_opt sm index (some key) = schedule_payload_gc sm index key

-- `for key in freed_keys { self.schedule_payload_gc(index, key) }`
unfoldable pub schedule_all : StateMachine → ℕ → List Text → StateMachine
schedule_all sm index [] = sm
schedule_all sm index (key ∷ keys) = schedule_all (schedule_payload_gc sm index key) index keys

abbrev pub with_storage : StateMachine → SessionStateStorage → StateMachine
with_storage sm s = record sm { storage = s }

abbrev pub tx_reply :
    Result SessionStateStorageError (Option Text) → Option Text × SessionStateResponse
tx_reply (ok freed) = (freed, register_tx_response (ok tt))
tx_reply (err e) = (none, register_tx_response (err e))

pub mark_started : StateMachine → Text → Text → ℕ → Text → Option SessionState → StateMachine × Bool
mark_started sm tenant client id key none = (sm, false)
mark_started sm tenant client id key (some state) =
    let (fl, started) = mark_delivery_started state.inflight id key in
    (
      with_storage sm (write_session sm.storage tenant client (record state { inflight = fl })),
      started,
    )

-- `disconnected_at == Some(expected)` of an existing session.
abbrev was_disconnected : Option ℕ → ℕ → Bool
was_disconnected none expected = false
was_disconnected (some at) expected = at == expected

pub should_delete : Option SessionState → Option ℕ → Bool
should_delete o none = true
should_delete none (some expected) = false
should_delete (some state) (some expected) = was_disconnected state.disconnected_at expected

pub delete_if : StateMachine → ℕ → Text → Text → Bool → StateMachine
delete_if sm index tenant client false = sm
delete_if sm index tenant client true =
    let (s, freed) = delete_session_state sm.storage tenant client in
    schedule_all (with_storage sm s) index freed

pub subscribe_as : StateMachine → Text → Text → Text → Bool → Bool → Option QoS → Applied
subscribe_as sm tenant client topic no_local as_published none = panicked
subscribe_as sm tenant client topic no_local as_published (some qos) =
    replied
      (with_storage sm
        (subscribe_topic_with_options sm.storage tenant client topic qos no_local as_published))
      no_response

abbrev pub push_reply :
    SessionStateResponse
    → Option (StateMachine × List SessionStateResponse)
    → Option (StateMachine × List SessionStateResponse)
push_reply reply none = none
push_reply reply (some (sm, replies)) = some (sm, reply ∷ replies)

-- The next entry, unless this one panicked.
abbrev pub apply_next :
    Applied
    → (StateMachine → Option (StateMachine × List SessionStateResponse))
    → Option (StateMachine × List SessionStateResponse)
apply_next panicked rest = none
apply_next (replied sm reply) rest = push_reply reply (rest sm)

-- The state machine of a node with no log and no snapshot.
unfoldable pub start : StateMachine
unfolding Storage.new
start = record {
  last_applied = none;
  last_membership = 0;
  storage = Storage.new;
  payload_gc_queue = [];
}

module _ (payload_store : Text → Option (List ℕ)) where
  abbrev fetch : Option Text → Option (List ℕ)
  fetch none = none
  fetch (some key) = payload_store key

  pub apply_request : StateMachine → ℕ → ℕ → SessionStateRequest → Applied
  unfolding mark_started should_delete delete_if subscribe_as qos_of
  apply_request sm index now (register_rx_packet tenant client id qos key) =
      let (s, freed) = inflight_register_rx_packet sm.storage tenant client id qos key now in
      replied (schedule_opt (with_storage sm s) index freed) (register_rx_response (ok tt))
  apply_request sm index now (register_tx_packet tenant client id qos key deferred) =
      let (s, r) = inflight_register_tx_packet sm.storage tenant client id qos key deferred now in
      let (freed, reply) = tx_reply r in
      replied (schedule_opt (with_storage sm s) index freed) reply
  apply_request sm index now (start_delivery tenant client id key) =
      let (sm', started) =
        mark_started sm tenant client id key (get_session_state sm.storage tenant client) in
      replied sm' (start_delivery_result started)
  apply_request sm index now (discard_packet tenant client id key) =
      let (s, freed) = inflight_discard_unsent sm.storage tenant client id key in
      replied (schedule_opt (with_storage sm s) index freed) no_response
  apply_request sm index now (get_current_packet tenant client id) =
      replied sm
        (current_packet_result (inflight_get_current_packet_key sm.storage tenant client id))
  apply_request sm index now (advance_packet tenant client id) =
      let (s, freed) = inflight_next_state sm.storage tenant client id now in
      replied (schedule_opt (with_storage sm s) index freed) no_response
  apply_request sm index now (clean_finish_items tenant client) =
      let (s, freed) = inflight_clean_finished_items sm.storage tenant client in
      replied (schedule_all (with_storage sm s) index freed) no_response
  apply_request sm index now (append_pending tenant client key) =
      replied (with_storage sm (append_to_pending_queue sm.storage tenant client key)) no_response
  apply_request sm index now (pop_pending tenant client) =
      let (s, key, freed) = pop_from_pending_queue sm.storage tenant client in
      replied (schedule_opt (with_storage sm s) index freed) (pop_result key (fetch freed))
  apply_request sm index now (subscribe tenant client topic qos no_local as_published) =
      subscribe_as sm tenant client topic no_local as_published (qos_of qos)
  apply_request sm index now (unsubscribe tenant client topic) =
      replied (with_storage sm (unsubscribe_topic sm.storage tenant client topic)) no_response
  apply_request sm index now (create_state tenant client duration version interval) =
      replied
        (with_storage sm (create_session_state sm.storage tenant client duration version interval))
        no_response
  apply_request sm index now (delete_state tenant client expected) =
      let found = get_session_state sm.storage tenant client in
      replied (delete_if sm index tenant client (should_delete found expected)) no_response
  apply_request sm index now (update_connection tenant client at interval) =
      replied (with_storage sm (update_connection_state sm.storage tenant client at interval))
        no_response

  pub apply_payload : StateMachine → ℕ → ℕ → EntryPayload → Applied
  apply_payload sm index now blank = replied sm no_response
  apply_payload sm index now (normal request) = apply_request sm index now request
  apply_payload sm index now (membership m) =
      replied (record sm { last_membership = m }) no_response

  pub apply_entry : StateMachine → Entry → Applied
  apply_entry sm e =
      apply_payload (record sm { last_applied = some e.index }) e.index e.now e.payload

  -- The entries in order, with the replies; `none` stands for the panic.
  pub apply : StateMachine → List Entry → Option (StateMachine × List SessionStateResponse)
  apply sm [] = some (sm, [])
  apply sm (e ∷ es) = apply_next (apply_entry sm e) (λ sm'. apply sm' es)
