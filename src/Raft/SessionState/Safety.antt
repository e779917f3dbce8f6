-- ===== src/Raft/SessionState/Safety.antt =====
-- broker/src/raft/session_state/store.rs: a payload is put up for deletion only when no session uses it.
pub mod Commands
pub mod Growth
pub mod Log
use yed_mq.Base.{
  ℕ, ◌≡◌, refl, sym, ap, ◌∙◌, Bool, true, false, Option, none, some, List, [], ◌∷◌, ◌++◌, arith,
  Text, All, Result, ok, err, Option-cases, inl, inr, text_eq_instance, nat_eq, count, append-nil,
  append_assoc,
}
use yed_mq.Inflight.{Inflight, mark_delivery_started}
use yed_mq.Inflight.Keys.{held-mark}
use yed_mq.Session.State.{SessionState, QoS}
use yed_mq.Session.State
use yed_mq.Session.Storage.{
  SessionStateStorage, SessionStateStorageError, get_session_state, delete_session_state,
  write_session, ensure_tenant, inflight_register_rx_packet, inflight_register_tx_packet,
  inflight_discard_unsent,
}
use yed_mq.Session.Storage.Counts.{used, uses}
use yed_mq.Session.Storage.Safety.{Covers, HasRoom, Releases, ReleasesAll, ensure-Covers}
use yed_mq.Session.Storage.Safety.Packets.{
  rx-Releases, tx-Releases, freed_of, discard-Releases, next_state-Releases, clean-Releases,
  write-Covers,
}
use yed_mq.Session.Storage.Safety.Sessions.{
  create-Covers, delete-Releases, append-Covers, pop-Releases, modify-Covers,
}
use yed_mq.Session.Storage.Updates.{
  subscribe_topic_with_options, unsubscribe_topic, update_connection_state, inflight_next_state,
  inflight_clean_finished_items,
}
use yed_mq.Session.Storage.Queue.{pop_from_pending_queue}
use yed_mq.Raft.SessionState.{
  StateMachine, PayloadGcItem, Entry, EntryPayload, blank, normal, membership, SessionStateRequest,
  Applied, replied, panicked, create_state, delete_state, register_rx_packet, register_tx_packet,
  start_delivery, discard_packet, get_current_packet, advance_packet, clean_finish_items,
  append_pending, pop_pending, subscribe, unsubscribe, update_connection, schedule_payload_gc,
  schedule_opt, schedule_all, with_storage, tx_reply, mark_started, should_delete, delete_if,
  subscribe_as, qos_of, apply_request, apply_entry, apply,
}

-- The command takes a reference to a key, and one more reference must fit into its count.
abbrev pub Room : SessionStateStorage → SessionStateRequest → Type 0
Room s (register_rx_packet tenant client id qos key) = HasRoom key s
Room s (register_tx_packet tenant client id qos key deferred) = HasRoom key s
Room s (append_pending tenant client key) = HasRoom key s
Room s _ = Unit {0}

-- Items that the entry with this log index puts up for deletion, and that nothing uses.
abbrev pub Deletable : SessionStateStorage → ℕ → PayloadGcItem → Type 0
Deletable s index item =
    (used item.key s ≡ 0) × (item.delete_after_log_index ≡ index) × (item.payload_deleted ≡ false)

-- From `sm` to `sm'` every packet stays counted, and the queue grows by deletable items only.
pub record Sound (sm : StateMachine) (index : ℕ) (sm' : StateMachine) : Type 0 where
  pub covers : Covers sm'.storage
  pub added : List PayloadGcItem
  pub queue : sm'.payload_gc_queue ≡ sm.payload_gc_queue ++ added
  pub deletable : All (Deletable sm'.storage index) added

pub with_storage-Sound :
    (sm : StateMachine) (s : SessionStateStorage) (index : ℕ)
    → Covers s
    → Sound sm index (with_storage sm s)
with_storage-Sound sm s index c = record {
  covers = c;
  added = [];
  queue = sym (append-nil sm.payload_gc_queue);
  deletable = tt;
}

pub schedule_opt-Sound :
    (sm : StateMachine) (s : SessionStateStorage) (index : ℕ) (freed : Option Text)
    → Releases s freed
    → Sound sm index (schedule_opt (with_storage sm s) index freed)
unfolding schedule_opt schedule_payload_gc
schedule_opt-Sound sm s index none r = with_storage-Sound sm s index r.0
schedule_opt-Sound sm s index (some key) r = record {
  covers = r.0;
  added = record { delete_after_log_index = index; key = key; payload_deleted = false } ∷ [];
  queue = refl;
  deletable = ((r.1 key refl, refl, refl), tt);
}

gc_items : ℕ → List Text → List PayloadGcItem
gc_items index [] = []
gc_items index (key ∷ keys) =
    record { delete_after_log_index = index; key = key; payload_deleted = false }
    ∷ gc_items index keys

pub schedule_all-storage :
    (keys : List Text) (sm : StateMachine) (index : ℕ)
    → (schedule_all sm index keys).storage ≡ sm.storage
unfolding schedule_all schedule_payload_gc
schedule_all-storage [] sm index = refl
schedule_all-storage (key ∷ keys) sm index =
    schedule_all-storage keys (schedule_payload_gc sm index key) index

schedule_all-queue :
    (keys : List Text) (sm : StateMachine) (index : ℕ)
    → (schedule_all sm index keys).payload_gc_queue ≡ sm.payload_gc_queue ++ gc_items index keys
unfolding schedule_all schedule_payload_gc gc_items
schedule_all-queue [] sm index = sym (append-nil sm.payload_gc_queue)
schedule_all-queue (key ∷ keys) sm index =
    schedule_all-queue keys (schedule_payload_gc sm index key) index
    ∙ append_assoc sm.payload_gc_queue _ (gc_items index keys)

gc_items-Deletable :
    (s : SessionStateStorage) (index : ℕ) (keys : List Text)
    → All (λ k. used k s ≡ 0) keys
    → All (Deletable s index) (gc_items index keys)
unfolding gc_items
gc_items-Deletable s index [] a = tt
gc_items-Deletable s index (key ∷ keys) a = ((a.0, refl, refl), gc_items-Deletable s index keys a.1)

pub schedule_all-Sound :
    (sm : StateMachine) (s : SessionStateStorage) (index : ℕ) (freed : List Text)
    → ReleasesAll s freed
    → Sound sm index (schedule_all (with_storage sm s) index freed)
schedule_all-Sound sm s index freed r =
    let same : (schedule_all (with_storage sm s) index freed).storage ≡ s =
      schedule_all-storage freed (with_storage sm s) index in
    record {
      covers = rw same r.0;
      added = gc_items index freed;
      queue = schedule_all-queue freed (with_storage sm s) index;
      deletable = rw same (gc_items-Deletable s index freed r.1);
    }
