-- ===== src/Raft/SessionState/Safety/Commands.antt =====
-- broker/src/raft/session_state/store.rs: each command of the session log.
use yed_mq.Base.{
  ℕ, ◌≡◌, refl, Bool, true, false, Option, none, some, List, arith, Text, Result, ok, err,
  text_eq_instance, nat_eq,
}
use yed_mq.Inflight.Keys.{held-mark}
use yed_mq.Session.State.{SessionState, QoS}
use yed_mq.Session.State
use yed_mq.Session.Storage.{
  SessionStateStorage, SessionStateStorageError, get_session_state, ensure_tenant,
  inflight_register_tx_packet,
}
use yed_mq.Session.Storage.Counts.{uses}
use yed_mq.Session.Storage.Safety.{Covers, Releases, ensure-Covers}
use yed_mq.Session.Storage.Safety.Packets.{
  rx-Releases, tx-Releases, freed_of, discard-Releases, next_state-Releases, clean-Releases,
  write-Covers,
}
use yed_mq.Session.Storage.Safety.Sessions.{
  create-Covers, delete-Releases, append-Covers, pop-Releases, modify-Covers,
}
use yed_mq.Session.Storage.Updates.{
  subscribe_topic_with_options, unsubscribe_topic, update_connection_state,
}
use yed_mq.Raft.SessionState.{
  StateMachine, SessionStateRequest, Applied, replied, panicked, create_state, delete_state,
  register_rx_packet, register_tx_packet, start_delivery, discard_packet, get_current_packet,
  advance_packet, clean_finish_items, append_pending, pop_pending, subscribe, unsubscribe,
  update_connection, schedule_opt, with_storage, tx_reply, mark_started, delete_if, subscribe_as,
  apply_request,
}
use yed_mq.Raft.SessionState.Safety.{
  Room, Sound, with_storage-Sound, schedule_opt-Sound, schedule_all-Sound,
}

ensured-modify-Covers :
    (s : SessionStateStorage) (tenant client topic : Text) (qos : QoS) (a b : Bool)
    → Covers s
    → Covers (subscribe_topic_with_options s tenant client topic qos a b)
unfolding subscribe_topic_with_options
ensured-modify-Covers s tenant client topic qos a b c =
    modify-Covers (ensure_tenant s tenant) tenant client _ (λ k state. refl)
      (ensure-Covers s tenant c)

unsubscribe-Covers :
    (s : SessionStateStorage) (tenant client topic : Text)
    → Covers s
    → Covers (unsubscribe_topic s tenant client topic)
unfolding unsubscribe_topic
unsubscribe-Covers s tenant client topic c = modify-Covers s tenant client _ (λ k state. refl) c

uses-update :
    (k : Text) (state : SessionState) (at interval : Option ℕ)
    → uses k (State.update_connection_state state at interval) ≡ uses k state
unfolding State.update_connection_state
uses-update k state at none = refl
uses-update k state at (some interval) = refl

update-Covers :
    (s : SessionStateStorage) (tenant client : Text) (at interval : Option ℕ)
    → Covers s
    → Covers (update_connection_state s tenant client at interval)
unfolding update_connection_state
update-Covers s tenant client at interval c =
    modify-Covers s tenant client _ (λ k state. uses-update k state at interval) c

mark_started-Sound :
    (sm : StateMachine) (tenant client : Text) (id : ℕ) (key : Text) (index : ℕ)
    (o : Option SessionState)
    → Covers sm.storage
    → get_session_state sm.storage tenant client ≡ o
    → Sound sm index (mark_started sm tenant client id key o).0
unfolding mark_started
mark_started-Sound sm tenant client id key index none c e = with_storage-Sound sm sm.storage index c
mark_started-Sound sm tenant client id key index (some state) c e = with_storage-Sound sm _ index (
    write-Covers sm.storage tenant client state _ c e
      (λ k. omega (arith, held-mark k state.inflight id key)))

delete_if-Sound :
    (sm : StateMachine) (index : ℕ) (tenant client : Text) (b : Bool)
    → Covers sm.storage
    → Sound sm index (delete_if sm index tenant client b)
unfolding delete_if
delete_if-Sound sm index tenant client false c = with_storage-Sound sm sm.storage index c
delete_if-Sound sm index tenant client true c =
    schedule_all-Sound sm _ index _ (delete-Releases sm.storage tenant client c)

-- What a reply means for the state machine that replied.
abbrev pub AppliedSound : StateMachine → ℕ → Applied → Type 0
AppliedSound sm index panicked = Unit {0}
AppliedSound sm index (replied sm' reply) = Sound sm index sm'

tx_reply-Sound :
    (sm : StateMachine) (s : SessionStateStorage) (index : ℕ)
    (r : Result SessionStateStorageError (Option Text))
    → Releases s (freed_of r)
    → Sound sm index (schedule_opt (with_storage sm s) index (tx_reply r).0)
tx_reply-Sound sm s index (ok freed) h = schedule_opt-Sound sm s index freed h
tx_reply-Sound sm s index (err x) h = schedule_opt-Sound sm s index none h

subscribe_as-Sound :
    (sm : StateMachine) (tenant client topic : Text) (a b : Bool) (index : ℕ) (o : Option QoS)
    → Covers sm.storage
    → AppliedSound sm index (subscribe_as sm tenant client topic a b o)
unfolding subscribe_as
subscribe_as-Sound sm tenant client topic a b index none c = tt
subscribe_as-Sound sm tenant client topic a b index (some qos) c =
    with_storage-Sound sm _ index (ensured-modify-Covers sm.storage tenant client topic qos a b c)

module _ (payload_store : Text → Option (List ℕ)) where
  -- Every command.
  pub request-Sound :
      (sm : StateMachine) (index now : ℕ) (request : SessionStateRequest)
      → Covers sm.storage
      → Room sm.storage request
      → AppliedSound sm index (apply_request payload_store sm index now request)
  unfolding apply_request
  request-Sound sm index now (register_rx_packet tenant client id qos key) c room =
      schedule_opt-Sound sm _ index _ (rx-Releases sm.storage tenant client id qos key now c room)
  request-Sound sm index now (register_tx_packet tenant client id qos key deferred) c room =
      tx_reply-Sound sm _ index
        (inflight_register_tx_packet sm.storage tenant client id qos key deferred now).1
        (tx-Releases sm.storage tenant client id qos key deferred now c room)
  request-Sound sm index now (start_delivery tenant client id key) c room =
      mark_started-Sound sm tenant client id key index _ c refl
  request-Sound sm index now (discard_packet tenant client id key) c room =
      schedule_opt-Sound sm _ index _ (discard-Releases sm.storage tenant client id key c)
  request-Sound sm index now (get_current_packet tenant client id) c room =
      with_storage-Sound sm sm.storage index c
  request-Sound sm index now (advance_packet tenant client id) c room =
      schedule_opt-Sound sm _ index _ (next_state-Releases sm.storage tenant client id now c)
  request-Sound sm index now (clean_finish_items tenant client) c room =
      schedule_all-Sound sm _ index _ (clean-Releases sm.storage tenant client c)
  request-Sound sm index now (append_pending tenant client key) c room =
      with_storage-Sound sm _ index (append-Covers sm.storage tenant client key c room)
  request-Sound sm index now (pop_pending tenant client) c room =
      schedule_opt-Sound sm _ index _ (pop-Releases sm.storage tenant client c)
  request-Sound sm index now (subscribe tenant client topic qos a b) c room =
      subscribe_as-Sound sm tenant client topic a b index _ c
  request-Sound sm index now (unsubscribe tenant client topic) c room =
      with_storage-Sound sm _ index (unsubscribe-Covers sm.storage tenant client topic c)
  request-Sound sm index now (create_state tenant client duration version interval) c room =
      with_storage-Sound sm _ index
        (create-Covers sm.storage tenant client duration version interval c)
  request-Sound sm index now (delete_state tenant client expected) c room =
      delete_if-Sound sm index tenant client _ c
  request-Sound sm index now (update_connection tenant client at interval) c room =
      with_storage-Sound sm _ index (update-Covers sm.storage tenant client at interval c)
