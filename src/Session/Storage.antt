-- ===== src/Session/Storage.antt =====
-- broker/src/session/session_state_storage.rs, `SessionStateStorage`: all sessions of all tenants, and
-- how many of them refer to each stored packet. An `Arc<RwLock<SessionState>>` that an operation
-- writes through is a read of the session and a write back, under the lock of the whole storage.
pub mod Queue
pub mod Updates
pub mod Counts
pub mod Safety
pub mod Growth
pub mod Order
use yed_mq.Base.{
  ℕ, ◌+◌, ◌-◌, ◌%◌, ◌^◌, Bool, true, false, not, Option, none, some, List, [], ◌∷◌, ◌++◌, ltb, ◌==◌,
  if◌then◌else◌, is_some, Text, Map, lookup, insert, remove, Result, ok, err, nat_eq,
  text_eq_instance,
}
use yed_mq.Inflight.{
  Inflight, InflightItem, InflightError, InflightState, get_all_packet_keys,
  register_with_rx_packet, register_with_tx_packet, discard_unsent, next_state,
  clean_finished_items, mark_delivery_started, get_next_state_packet_key, get_current_packet_key,
  get_inflight_current_state,
}
use yed_mq.Session.State.{
  SessionState, SubscriptionState, QoS, ProtocolVersion, new_with_options, update_connection_state,
  expired_disconnected_at,
}

pub data SessionStateStorageError : Type 0 where
  inflight_error : InflightError → SessionStateStorageError
  session_state_not_existed : Text → SessionStateStorageError

pub record SessionStateStorage : Type 0 where
  pub inner : Map Text (Map Text SessionState)
  pub ref_counts : Map Text ℕ

unfoldable pub new : SessionStateStorage
new = record { inner = []; ref_counts = [] }

abbrev pub or_zero : Option ℕ → ℕ
or_zero none = 0
or_zero (some c) = c

-- The count is a `u64`.
unfoldable pub inc_ref : SessionStateStorage → Text → SessionStateStorage
inc_ref s key = record s {
  ref_counts = insert key ((or_zero (lookup key s.ref_counts) + 1) % 2 ^ 64) s.ref_counts;
}

unfoldable pub dec_entry : SessionStateStorage → Text → Option ℕ → SessionStateStorage × Option Text
dec_entry s key none = (s, none)
dec_entry s key (some c) =
    let c' = if ltb 0 c then c - 1 else c in
    if c' == 0
    then (record s { ref_counts = remove key s.ref_counts }, some key)
    else (record s { ref_counts = insert key c' s.ref_counts }, none)

unfoldable pub dec_ref : SessionStateStorage → Text → SessionStateStorage × Option Text
unfolding dec_entry
dec_ref s key = dec_entry s key (lookup key s.ref_counts)

-- `key.and_then(|k| self.dec_ref(&k))`
unfoldable pub dec_opt : SessionStateStorage → Option Text → SessionStateStorage × Option Text
dec_opt s none = (s, none)
dec_opt s (some key) = dec_ref s key

abbrev pub push_freed : Option Text → List Text → List Text
push_freed none ks = ks
push_freed (some k) ks = k ∷ ks

-- `for key in keys { if let Some(k) = self.dec_ref(key) { freed_keys.push(k) } }`
unfoldable pub dec_all : SessionStateStorage → List Text → SessionStateStorage × List Text
dec_all s [] = (s, [])
dec_all s (key ∷ keys) =
    let (s1, freed) = dec_ref s key in
    let (s2, more) = dec_all s1 keys in (s2, push_freed freed more)

-- `entry(tenant).or_default()`
abbrev pub or_empty : Option (Map Text SessionState) → Map Text SessionState
or_empty none = []
or_empty (some m) = m

-- `if !self.inner.contains_key(tenant) { self.inner.insert(tenant, HashMap::new()) }`
unfoldable pub ensure_tenant : SessionStateStorage → Text → SessionStateStorage
ensure_tenant s tenant =
    if is_some (lookup tenant s.inner) then s else record s { inner = insert tenant [] s.inner }

unfoldable pub create_session_state :
    SessionStateStorage → Text → Text → ℕ → Option ProtocolVersion → Option ℕ → SessionStateStorage
create_session_state s tenant session duration version interval = record s {
  inner =
      insert tenant
        (insert session (new_with_options duration version interval)
          (or_empty (lookup tenant s.inner)))
        s.inner;
}

abbrev pub find_in : Option (Map Text SessionState) → Text → Option SessionState
find_in none session = none
find_in (some m) session = lookup session m

unfoldable pub get_session_state : SessionStateStorage → Text → Text → Option SessionState
get_session_state s tenant session = find_in (lookup tenant s.inner) session

unfoldable pub session_state_exists : SessionStateStorage → Text → Text → Bool
session_state_exists s tenant session = is_some (get_session_state s tenant session)

abbrev pub write_in :
    Option (Map Text SessionState)
    → SessionStateStorage
    → Text
    → Text
    → SessionState
    → SessionStateStorage
write_in none s tenant session state = s
write_in (some m) s tenant session state = record s {
  inner = insert tenant (insert session state m) s.inner;
}

-- The write through the lock of an existing session.
unfoldable pub write_session :
    SessionStateStorage → Text → Text → SessionState → SessionStateStorage
write_session s tenant session state = write_in (lookup tenant s.inner) s tenant session state

abbrev pub remove_in :
    Option (Map Text SessionState) → SessionStateStorage → Text → Text → SessionStateStorage
remove_in none s tenant session = s
remove_in (some m) s tenant session = record s { inner = insert tenant (remove session m) s.inner }

unfoldable pub drop_keys : SessionStateStorage → SessionState → SessionStateStorage × List Text
drop_keys s state = dec_all s (state.pending_messages ++ get_all_packet_keys state.inflight)

unfoldable pub delete_found :
    SessionStateStorage → Text → Text → Option SessionState → SessionStateStorage × List Text
unfolding drop_keys
delete_found s tenant session none = (s, [])
delete_found s tenant session (some state) =
    drop_keys (remove_in (lookup tenant s.inner) s tenant session) state

unfoldable pub delete_session_state :
    SessionStateStorage → Text → Text → SessionStateStorage × List Text
unfolding delete_found
delete_session_state s tenant session =
    delete_found s tenant session (get_session_state s tenant session)

unfoldable pub discard_into :
    SessionStateStorage
    → Text
    → Text
    → ℕ
    → Text
    → Option SessionState
    → SessionStateStorage × Option Text
discard_into s tenant client id key none = (s, none)
discard_into s tenant client id key (some state) =
    let (fl, removed) = discard_unsent state.inflight id key in
    dec_opt (write_session s tenant client (record state { inflight = fl })) removed

unfoldable pub inflight_discard_unsent :
    SessionStateStorage → Text → Text → ℕ → Text → SessionStateStorage × Option Text
unfolding discard_into
inflight_discard_unsent s tenant client id key =
    discard_into s tenant client id key (get_session_state s tenant client)

abbrev start_item : Inflight → ℕ → Bool → Option InflightItem → Inflight
start_item fl id started none = fl
start_item fl id started (some item) = record fl {
  inner = insert id (record item { delivery_started = started }) fl.inner;
}

-- `if let Some(item) = inflight.inner.get_mut(&id) { item.delivery_started = started }`
unfoldable pub set_started : Inflight → ℕ → Bool → Inflight
set_started fl id started = start_item fl id started (lookup id fl.inner)

unfoldable pub tx_registered :
    SessionStateStorage
    → Text
    → Text
    → SessionState
    → ℕ
    → Text
    → Bool
    → Result InflightError (Inflight × Option Text)
    → SessionStateStorage × Result SessionStateStorageError (Option Text)
unfolding set_started
tx_registered s tenant client state id key deferred (err e) = (s, err (inflight_error e))
tx_registered s tenant client state id key deferred (ok (fl, old_key)) =
    let written =
      write_session s tenant client
        (record state { inflight = set_started fl id (not deferred) }) in
    let (s', freed) = dec_opt (inc_ref written key) old_key in (s', ok freed)

unfoldable pub tx_into :
    SessionStateStorage
    → Text
    → Text
    → ℕ
    → ℕ
    → Text
    → Bool
    → ℕ
    → Option SessionState
    → SessionStateStorage × Result SessionStateStorageError (Option Text)
unfolding tx_registered
tx_into s tenant client id qos key deferred now none = (s, err (session_state_not_existed client))
tx_into s tenant client id qos key deferred now (some state) =
    tx_registered s tenant client state id key deferred
      (register_with_tx_packet state.inflight id qos key now)

unfoldable pub inflight_register_tx_packet :
    SessionStateStorage
    → Text
    → Text
    → ℕ
    → ℕ
    → Text
    → Bool
    → ℕ
    → SessionStateStorage × Result SessionStateStorageError (Option Text)
unfolding tx_into
inflight_register_tx_packet s tenant client id qos key deferred now =
    let s' = ensure_tenant s tenant in
    tx_into s' tenant client id qos key deferred now (get_session_state s' tenant client)

unfoldable pub rx_into :
    SessionStateStorage
    → Text
    → Text
    → ℕ
    → ℕ
    → Text
    → ℕ
    → Option SessionState
    → SessionStateStorage × Option Text
rx_into s tenant client id qos key now none = (s, none)
rx_into s tenant client id qos key now (some state) =
    let (fl, old_key) = register_with_rx_packet state.inflight id qos key now in
    dec_opt (write_session (inc_ref s key) tenant client (record state { inflight = fl })) old_key

unfoldable pub inflight_register_rx_packet :
    SessionStateStorage → Text → Text → ℕ → ℕ → Text → ℕ → SessionStateStorage × Option Text
unfolding rx_into
inflight_register_rx_packet s tenant client id qos key now =
    let s' = ensure_tenant s tenant in
    rx_into s' tenant client id qos key now (get_session_state s' tenant client)
