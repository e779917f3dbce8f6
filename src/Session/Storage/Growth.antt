-- ===== src/Session/Storage/Growth.antt =====
-- broker/src/session/session_state_storage.rs: an operation takes one reference to a key at most, so the
-- counts of a storage stay below the number of operations on it.
use yed_mq.Base.{
  ℕ, ◌+◌, ◌%◌, ◌^◌, ◌≤◌, Bool, Option, none, some, [], ◌∷◌, ◌++◌, arith, Text, lookup,
  lookup-insert, text_eq_iff, nat_eq, text_eq_instance, Result, ok, err, not,
}
use yed_mq.Inflight.{
  Inflight, InflightError, register_with_rx_packet, discard_unsent, next_state,
  clean_finished_items, get_all_packet_keys,
}
use yed_mq.Session.State.{SessionState, ProtocolVersion}
use yed_mq.Session.Storage.{
  SessionStateStorage, inc_ref, ensure_tenant, get_session_state, write_session, remove_in,
  create_session_state, delete_found, delete_session_state, discard_into, inflight_discard_unsent,
  set_started, tx_registered, tx_into, inflight_register_tx_packet, rx_into,
  inflight_register_rx_packet,
}
use yed_mq.Session.Storage.Counts.{
  ref_of, ref_of-dec_opt, ref_of-dec_all, ref_of-write, ref_of-ensure, ref_of-remove,
}
use yed_mq.Session.Storage.Queue.{
  append_into, append_to_pending_queue, pop_last, pop_into, pop_from_pending_queue,
}
use yed_mq.Session.Storage.Updates.{
  next_into, inflight_next_state, clean_into, inflight_clean_finished_items, modify_into,
}

-- One more reference to each key at most.
abbrev pub Grows : SessionStateStorage → SessionStateStorage → Type 0
Grows s s' = (k : Text) → ref_of k s' ≤ ref_of k s + 1

ref_of-inc-le :
    (k : Text) (s : SessionStateStorage) (key : Text) → ref_of k (inc_ref s key) ≤ ref_of k s + 1
unfolding inc_ref
ref_of-inc-le k s key =
    ground
      (arith, lookup-insert key k ((ref_of key s + 1) % 2 ^ 64) s.ref_counts, text_eq_iff key k)

rx_into-Grows :
    (s : SessionStateStorage) (tenant client : Text) (id qos : ℕ) (key : Text) (now : ℕ)
    (o : Option SessionState)
    → Grows s (rx_into s tenant client id qos key now o).0
unfolding rx_into
rx_into-Grows s tenant client id qos key now none k = omega arith
rx_into-Grows s tenant client id qos key now (some state) k =
    let r = register_with_rx_packet state.inflight id qos key now in
    let state' : SessionState = record state { inflight = r.0 } in
    omega (
      arith,
      ref_of-dec_opt k (write_session (inc_ref s key) tenant client state') r.1,
      ref_of-write k (inc_ref s key) tenant client state',
      ref_of-inc-le k s key,
    )

pub rx-Grows :
    (s : SessionStateStorage) (tenant client : Text) (id qos : ℕ) (key : Text) (now : ℕ)
    → Grows s (inflight_register_rx_packet s tenant client id qos key now).0
unfolding inflight_register_rx_packet
rx-Grows s tenant client id qos key now k = omega (
  arith,
  rx_into-Grows (ensure_tenant s tenant) tenant client id qos key now
      (get_session_state (ensure_tenant s tenant) tenant client) k,
  ref_of-ensure k s tenant,
)

tx_registered-Grows :
    (s : SessionStateStorage) (tenant client : Text) (state : SessionState) (id : ℕ) (key : Text)
    (deferred : Bool) (x : Result InflightError (Inflight × Option Text))
    → Grows s (tx_registered s tenant client state id key deferred x).0
unfolding tx_registered
tx_registered-Grows s tenant client state id key deferred (err x) k = omega arith
tx_registered-Grows s tenant client state id key deferred (ok (fl, old_key)) k =
    let state' : SessionState = record state { inflight = set_started fl id (not deferred) } in
    omega (
      arith,
      ref_of-dec_opt k (inc_ref (write_session s tenant client state') key) old_key,
      ref_of-inc-le k (write_session s tenant client state') key,
      ref_of-write k s tenant client state',
    )

tx_into-Grows :
    (s : SessionStateStorage) (tenant client : Text) (id qos : ℕ) (key : Text) (deferred : Bool)
    (now : ℕ) (o : Option SessionState)
    → Grows s (tx_into s tenant client id qos key deferred now o).0
unfolding tx_into
tx_into-Grows s tenant client id qos key deferred now none k = omega arith
tx_into-Grows s tenant client id qos key deferred now (some state) k =
    tx_registered-Grows s tenant client state id key deferred _ k

pub tx-Grows :
    (s : SessionStateStorage) (tenant client : Text) (id qos : ℕ) (key : Text) (deferred : Bool)
    (now : ℕ)
    → Grows s (inflight_register_tx_packet s tenant client id qos key deferred now).0
unfolding inflight_register_tx_packet
tx-Grows s tenant client id qos key deferred now k = omega (
  arith,
  tx_into-Grows (ensure_tenant s tenant) tenant client id qos key deferred now
      (get_session_state (ensure_tenant s tenant) tenant client) k,
  ref_of-ensure k s tenant,
)

discard_into-Grows :
    (s : SessionStateStorage) (tenant client : Text) (id : ℕ) (key : Text) (o : Option SessionState)
    → Grows s (discard_into s tenant client id key o).0
unfolding discard_into
discard_into-Grows s tenant client id key none k = omega arith
discard_into-Grows s tenant client id key (some state) k =
    let r = discard_unsent state.inflight id key in
    let state' : SessionState = record state { inflight = r.0 } in
    omega (
      arith,
      ref_of-dec_opt k (write_session s tenant client state') r.1,
      ref_of-write k s tenant client state',
    )

pub discard-Grows :
    (s : SessionStateStorage) (tenant client : Text) (id : ℕ) (key : Text)
    → Grows s (inflight_discard_unsent s tenant client id key).0
unfolding inflight_discard_unsent
discard-Grows s tenant client id key = discard_into-Grows s tenant client id key _

next_into-Grows :
    (s : SessionStateStorage) (tenant client : Text) (id now : ℕ) (o : Option SessionState)
    → Grows s (next_into s tenant client id now o)
unfolding next_into
next_into-Grows s tenant client id now none k = omega arith
next_into-Grows s tenant client id now (some state) k = omega (
  arith,
  ref_of-write k s tenant client (record state { inflight = (next_state state.inflight id now).0 }),
)

pub next_state-Grows :
    (s : SessionStateStorage) (tenant client : Text) (id now : ℕ)
    → Grows s (inflight_next_state s tenant client id now).0
unfolding inflight_next_state
next_state-Grows s tenant client id now = next_into-Grows s tenant client id now _

clean_into-Grows :
    (s : SessionStateStorage) (tenant client : Text) (o : Option SessionState)
    → Grows s (clean_into s tenant client o).0
unfolding clean_into
clean_into-Grows s tenant client none k = omega arith
clean_into-Grows s tenant client (some state) k =
    let r = clean_finished_items state.inflight in
    let state' : SessionState = record state { inflight = r.0 } in
    omega (
      arith,
      ref_of-dec_all k r.1 (write_session s tenant client state'),
      ref_of-write k s tenant client state',
    )

pub clean-Grows :
    (s : SessionStateStorage) (tenant client : Text)
    → Grows s (inflight_clean_finished_items s tenant client).0
unfolding inflight_clean_finished_items
clean-Grows s tenant client = clean_into-Grows s tenant client _

append_into-Grows :
    (s : SessionStateStorage) (tenant client key : Text) (o : Option SessionState)
    → Grows s (append_into s tenant client key o)
unfolding append_into
append_into-Grows s tenant client key none k = omega arith
append_into-Grows s tenant client key (some state) k = omega (
  arith,
  ref_of-inc-le k s key,
  ref_of-write k (inc_ref s key) tenant client
      (record state { pending_messages = state.pending_messages ++ (key ∷ []) }),
)

pub append-Grows :
    (s : SessionStateStorage) (tenant client key : Text)
    → Grows s (append_to_pending_queue s tenant client key)
unfolding append_to_pending_queue
append-Grows s tenant client key k = omega (
  arith,
  append_into-Grows (ensure_tenant s tenant) tenant client key
      (get_session_state (ensure_tenant s tenant) tenant client) k,
  ref_of-ensure k s tenant,
)

pop_into-Grows :
    (s : SessionStateStorage) (tenant client : Text) (o : Option SessionState)
    → Grows s (pop_into s tenant client o).0
unfolding pop_into
pop_into-Grows s tenant client none k = omega arith
pop_into-Grows s tenant client (some state) k =
    let r = pop_last state.pending_messages in
    let state' : SessionState = record state { pending_messages = r.0 } in
    omega (
      arith,
      ref_of-dec_opt k (write_session s tenant client state') r.1,
      ref_of-write k s tenant client state',
    )

pub pop-Grows :
    (s : SessionStateStorage) (tenant client : Text)
    → Grows s (pop_from_pending_queue s tenant client).0
unfolding pop_from_pending_queue
pop-Grows s tenant client = pop_into-Grows s tenant client _

delete_found-Grows :
    (s : SessionStateStorage) (tenant session : Text) (o : Option SessionState)
    → Grows s (delete_found s tenant session o).0
unfolding delete_found
delete_found-Grows s tenant session none k = omega arith
delete_found-Grows s tenant session (some state) k = omega (
  arith,
  ref_of-dec_all k (state.pending_messages ++ get_all_packet_keys state.inflight)
      (remove_in (lookup tenant s.inner) s tenant session),
  ref_of-remove k s tenant session,
)

pub delete-Grows :
    (s : SessionStateStorage) (tenant session : Text)
    → Grows s (delete_session_state s tenant session).0
unfolding delete_session_state
delete-Grows s tenant session = delete_found-Grows s tenant session _

pub create-Grows :
    (s : SessionStateStorage) (tenant session : Text) (duration : ℕ) (v : Option ProtocolVersion)
    (interval : Option ℕ)
    → Grows s (create_session_state s tenant session duration v interval)
unfolding create_session_state
create-Grows s tenant session duration v interval k = omega arith

pub modify-Grows :
    (s : SessionStateStorage) (tenant client : Text) (f : SessionState → SessionState)
    (o : Option SessionState)
    → Grows s (modify_into s tenant client f o)
modify-Grows s tenant client f none k = omega arith
modify-Grows s tenant client f (some state) k =
    omega (arith, ref_of-write k s tenant client (f state))
