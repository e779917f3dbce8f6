-- ===== src/Raft/SessionState/Safety/Growth.antt =====
-- broker/src/raft/session_state/store.rs, how the reference counts grow with each
-- command.
use yed_mq.Base.{
  ℕ, ◌≡◌, refl, Bool, true, false, Option, none, some, List, arith, Text, text_eq_instance,
}
use yed_mq.Session.State.{SessionState, QoS}
use yed_mq.Session.Storage.{SessionStateStorage, get_session_state, ensure_tenant}
use yed_mq.Session.Storage.Counts.{ref_of-ensure, ref_of-write}
use yed_mq.Session.Storage.Updates.{
  subscribe_topic_with_options, unsubscribe_topic, update_connection_state,
}
use yed_mq.Session.Storage.Growth.{
  Grows, rx-Grows, tx-Grows, discard-Grows, next_state-Grows, clean-Grows, append-Grows, pop-Grows,
  delete-Grows, create-Grows, modify-Grows,
}
use yed_mq.Raft.SessionState.{
  StateMachine, SessionStateRequest, Applied, replied, panicked, create_state, delete_state,
  register_rx_packet, register_tx_packet, start_delivery, discard_packet, get_current_packet,
  advance_packet, clean_finish_items, append_pending, pop_pending, subscribe, unsubscribe,
  update_connection, schedule_payload_gc, schedule_opt, mark_started, delete_if, subscribe_as,
  apply_request,
}
use yed_mq.Raft.SessionState.Safety.{schedule_all-storage}

schedule_opt-storage :
    (sm : StateMachine) (index : ℕ) (freed : Option Text)
    → (schedule_opt sm index freed).storage ≡ sm.storage
unfolding schedule_opt schedule_payload_gc
schedule_opt-storage sm index none = refl
schedule_opt-storage sm index (some key) = refl

subscribe-Grows :
    (s : SessionStateStorage) (tenant client topic : Text) (qos : QoS) (a b : Bool)
    → Grows s (subscribe_topic_with_options s tenant client topic qos a b)
unfolding subscribe_topic_with_options
subscribe-Grows s tenant client topic qos a b k = omega (
  arith,
  modify-Grows (ensure_tenant s tenant) tenant client _
      (get_session_state (ensure_tenant s tenant) tenant client) k,
  ref_of-ensure k s tenant,
)

mark_started-Grows :
    (sm : StateMachine) (tenant client : Text) (id : ℕ) (key : Text) (o : Option SessionState)
    → Grows sm.storage (mark_started sm tenant client id key o).0.storage
unfolding mark_started
mark_started-Grows sm tenant client id key none k = omega arith
mark_started-Grows sm tenant client id key (some state) k =
    omega (arith, ref_of-write k sm.storage tenant client)

delete_if-Grows :
    (sm : StateMachine) (index : ℕ) (tenant client : Text) (b : Bool)
    → Grows sm.storage (delete_if sm index tenant client b).storage
unfolding delete_if
delete_if-Grows sm index tenant client false = λ k. omega arith
delete_if-Grows sm index tenant client true =
    rw schedule_all-storage (delete-Grows sm.storage tenant client)

-- The storage of the machine that replied.
abbrev pub AppliedGrows : SessionStateStorage → Applied → Type 0
AppliedGrows s panicked = Unit {0}
AppliedGrows s (replied sm' reply) = Grows s sm'.storage

subscribe_as-Grows :
    (sm : StateMachine) (tenant client topic : Text) (a b : Bool) (o : Option QoS)
    → AppliedGrows sm.storage (subscribe_as sm tenant client topic a b o)
unfolding subscribe_as
subscribe_as-Grows sm tenant client topic a b none = tt
subscribe_as-Grows sm tenant client topic a b (some qos) =
    subscribe-Grows sm.storage tenant client topic qos a b

module _ (payload_store : Text → Option (List ℕ)) where
  pub request-Grows :
      (sm : StateMachine) (index now : ℕ) (request : SessionStateRequest)
      → AppliedGrows sm.storage (apply_request payload_store sm index now request)
  unfolding apply_request unsubscribe_topic update_connection_state
  request-Grows sm index now (register_rx_packet tenant client id qos key) =
      rw schedule_opt-storage (rx-Grows sm.storage tenant client id qos key now)
  request-Grows sm index now (register_tx_packet tenant client id qos key deferred) =
      rw schedule_opt-storage (tx-Grows sm.storage tenant client id qos key deferred now)
  request-Grows sm index now (start_delivery tenant client id key) =
      mark_started-Grows sm tenant client id key _
  request-Grows sm index now (discard_packet tenant client id key) =
      rw schedule_opt-storage (discard-Grows sm.storage tenant client id key)
  request-Grows sm index now (get_current_packet tenant client id) = λ k. omega arith
  request-Grows sm index now (advance_packet tenant client id) =
      rw schedule_opt-storage (next_state-Grows sm.storage tenant client id now)
  request-Grows sm index now (clean_finish_items tenant client) =
      rw schedule_all-storage (clean-Grows sm.storage tenant client)
  request-Grows sm index now (append_pending tenant client key) =
      append-Grows sm.storage tenant client key
  request-Grows sm index now (pop_pending tenant client) =
      rw schedule_opt-storage (pop-Grows sm.storage tenant client)
  request-Grows sm index now (subscribe tenant client topic qos a b) =
      subscribe_as-Grows sm tenant client topic a b _
  request-Grows sm index now (unsubscribe tenant client topic) =
      modify-Grows sm.storage tenant client _ _
  request-Grows sm index now (create_state tenant client duration version interval) =
      create-Grows sm.storage tenant client duration version interval
  request-Grows sm index now (delete_state tenant client expected) =
      delete_if-Grows sm index tenant client _
  request-Grows sm index now (update_connection tenant client at interval) =
      modify-Grows sm.storage tenant client _ _
