-- ===== src/Raft/SessionState/Tests.antt =====
-- broker/src/raft/session_state/store.rs on a concrete log.
use yed_mq.Base.{
  ℕ, ◌≡◌, ◌≢◌, ◌⊎◌, refl, false, Option, none, some, List, [], ◌∷◌, arith, Text, length,
}
use yed_mq.Session.State.{SessionState, v5_0}
use yed_mq.Session.Storage.{get_session_state}
use yed_mq.Session.Storage.Safety.{Covers}
use yed_mq.Base.{lookup, insert, remove, text_eq}
use yed_mq.Inflight
use yed_mq.Session.State.{new_with_options, update_connection_state}
use yed_mq.Session.Storage.{
  create_session_state, write_session, ensure_tenant, inc_ref, dec_opt, dec_ref,
}
use yed_mq.Session.Storage.Queue.{append_to_pending_queue, pop_from_pending_queue, pop_last}
use yed_mq.Raft.SessionState.{apply_payload, apply_entry, schedule_opt, schedule_payload_gc}
use yed_mq.Raft.SessionState.{
  StateMachine, Entry, normal, SessionStateRequest, SessionStateResponse, create_state,
  append_pending, pop_pending, delete_state, update_connection, no_response, pop_result, replied,
  start, apply_request, apply,
}
use yed_mq.Raft.SessionState.Safety.{Sound}
use yed_mq.Raft.SessionState.Safety.Log.{log-Covers, deletion_safe}
use yed_mq.Raft.SessionState.Answers.{apply_total}
use yed_mq.Raft.SessionState.Purge.{delete-update_connection}

abbrev acme : Text
acme = b'a' ∷ []

abbrev alice : Text
alice = b'c' ∷ []

abbrev message : Text
message = b'm' ∷ []

abbrev payloads : Text → Option (List ℕ)
payloads key = some key

abbrev entry : ℕ → SessionStateRequest → Entry
entry index request = record { index = index; now = 1000; payload = normal request }

-- A session is created, and a message is queued for it.
abbrev log : List Entry
log =
    entry 1 (create_state acme alice 60 (some v5_0) none)
    ∷ entry 2 (append_pending acme alice message)
    ∷ []

abbrev session : List Text → SessionState
session messages = record {
  pending_messages = messages;
  inflight = record { inner = []; expired_duration = 60 };
  subscriptions = [];
  disconnected_at = none;
  protocol_version = some v5_0;
  session_expiry_interval = none;
  expires_at = none;
}

abbrev queued : StateMachine
queued = record {
  last_applied = some 2;
  last_membership = 0;
  storage = record {
    inner = (acme, (alice, session (message ∷ [])) ∷ []) ∷ [];
    ref_counts = (message, 1) ∷ [];
  };
  payload_gc_queue = [];
}

abbrev popped : StateMachine
popped = record {
  last_applied = some 3;
  last_membership = 0;
  storage = record { inner = (acme, (alice, session []) ∷ []) ∷ []; ref_counts = [] };
  payload_gc_queue =
      record { delete_after_log_index = 3; key = message; payload_deleted = false } ∷ [];
}

apply_total_example :
    (r : StateMachine × List SessionStateResponse) × (apply payloads start log ≡ some r)
apply_total_example = apply_total payloads log start (tt, (tt, tt))

log-Covers_example : Covers queued.storage × (2 ≡ length log)
unfolding apply apply_entry apply_payload apply_request schedule_opt schedule_payload_gc start
    create_session_state append_to_pending_queue pop_from_pending_queue pop_last get_session_state
    write_session ensure_tenant inc_ref dec_opt dec_ref new_with_options Inflight.new lookup insert
    remove text_eq
log-Covers_example =
    log-Covers payloads log {final = queued} {replies = no_response ∷ no_response ∷ []}
      (omega arith) refl

-- The message that is popped is put up for deletion, and no session uses it any more.
deletion_safe_example : Sound queued 3 popped
unfolding apply apply_entry apply_payload apply_request schedule_opt schedule_payload_gc start
    create_session_state append_to_pending_queue pop_from_pending_queue pop_last get_session_state
    write_session ensure_tenant inc_ref dec_opt dec_ref new_with_options Inflight.new lookup insert
    remove text_eq
deletion_safe_example =
    deletion_safe payloads log (entry 3 (pop_pending acme alice)) {sm = queued} {sm' = popped}
      {replies = no_response ∷ no_response ∷ []} {reply = pop_result (some message) (some message)}
      (omega arith) refl refl

abbrev found : StateMachine → Option SessionState
found sm = get_session_state sm.storage acme alice

abbrev left : Option ℕ
left = some 950

abbrev scanned : Option ℕ
scanned = some 900

-- Alice leaves at 950, after a scan that found her session expired since 900.
delete-update_connection_example :
    (sm' : StateMachine) × (sm'' : StateMachine) × (apply_request payloads queued 3 1000
        (update_connection acme alice left none)
      ≡ replied sm' no_response)
    × (apply_request payloads sm' 4 1001 (delete_state acme alice (some 900))
        ≡ replied sm'' no_response)
    × (((left ≡ scanned) × (found sm'' ≡ none))
        ⊎ ((left ≢ scanned)
            × (sm'' ≡ sm')
            × (found sm' ≡ some (update_connection_state (session (message ∷ [])) left none))))
delete-update_connection_example =
    delete-update_connection payloads queued 3 1000 4 1001 900 acme alice (session (message ∷ []))
      left none (unfold get_session_state lookup text_eq in refl)
