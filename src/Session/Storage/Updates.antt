-- ===== src/Session/Storage/Updates.antt =====
-- broker/src/session/session_state_storage.rs: the other operations on a session that exists, the
-- look-ups, and the scan for expired sessions.
use yed_mq.Base.{
  ℕ, Bool, false, Option, none, some, List, [], ◌∷◌, ◌++◌, Text, Map, insert, remove,
  text_eq_instance,
}
use yed_mq.Inflight.{
  InflightState, next_state, clean_finished_items, get_next_state_packet_key,
  get_current_packet_key, get_inflight_current_state,
}
use yed_mq.Session.State.{SessionState, SubscriptionState, QoS, expired_disconnected_at}
use yed_mq.Session.State
use yed_mq.Session.Storage.{
  SessionStateStorage, dec_all, ensure_tenant, get_session_state, write_session,
}

-- The key of a packet that becomes finished is dropped here: finished packets are cleaned later.
unfoldable pub next_into :
    SessionStateStorage → Text → Text → ℕ → ℕ → Option SessionState → SessionStateStorage
next_into s tenant client id now none = s
next_into s tenant client id now (some state) =
    write_session s tenant client (record state { inflight = (next_state state.inflight id now).0 })

unfoldable pub inflight_next_state :
    SessionStateStorage → Text → Text → ℕ → ℕ → SessionStateStorage × Option Text
unfolding next_into
inflight_next_state s tenant client id now =
    (next_into s tenant client id now (get_session_state s tenant client), none)

unfoldable pub clean_into :
    SessionStateStorage → Text → Text → Option SessionState → SessionStateStorage × List Text
clean_into s tenant client none = (s, [])
clean_into s tenant client (some state) =
    let (fl, keys) = clean_finished_items state.inflight in
    dec_all (write_session s tenant client (record state { inflight = fl })) keys

unfoldable pub inflight_clean_finished_items :
    SessionStateStorage → Text → Text → SessionStateStorage × List Text
unfolding clean_into
inflight_clean_finished_items s tenant client =
    clean_into s tenant client (get_session_state s tenant client)

abbrev bind_session {ℓ} : {A : Type ℓ} → Option SessionState → (SessionState → Option A) → Option A
bind_session none f = none
bind_session (some state) f = f state

unfoldable pub inflight_get_next_state_packet_key :
    SessionStateStorage → Text → Text → ℕ → Option Text
inflight_get_next_state_packet_key s tenant client id =
    bind_session (get_session_state s tenant client)
      λ state. get_next_state_packet_key state.inflight id

unfoldable pub inflight_get_packet_state :
    SessionStateStorage → Text → Text → ℕ → Option InflightState
inflight_get_packet_state s tenant client id =
    bind_session (get_session_state s tenant client)
      λ state. get_inflight_current_state state.inflight id

unfoldable pub inflight_get_current_packet_key : SessionStateStorage → Text → Text → ℕ → Option Text
inflight_get_current_packet_key s tenant client id =
    bind_session (get_session_state s tenant client)
      λ state. get_current_packet_key state.inflight id

-- A change of one session that touches neither its messages nor its packets.
abbrev pub modify_into :
    SessionStateStorage
    → Text
    → Text
    → (SessionState → SessionState)
    → Option SessionState
    → SessionStateStorage
modify_into s tenant client f none = s
modify_into s tenant client f (some state) = write_session s tenant client (f state)

abbrev pub subscribed : Text → QoS → Bool → Bool → SessionState → SessionState
subscribed topic qos no_local as_published state = record state {
  subscriptions =
      insert topic (record { qos = qos; no_local = no_local; retain_as_published = as_published })
        state.subscriptions;
}

unfoldable pub subscribe_topic_with_options :
    SessionStateStorage → Text → Text → Text → QoS → Bool → Bool → SessionStateStorage
subscribe_topic_with_options s tenant client topic qos no_local as_published =
    let s' = ensure_tenant s tenant in
    modify_into s' tenant client (subscribed topic qos no_local as_published)
      (get_session_state s' tenant client)

unfoldable pub subscribe_topic :
    SessionStateStorage → Text → Text → Text → QoS → SessionStateStorage
subscribe_topic s tenant client topic qos =
    subscribe_topic_with_options s tenant client topic qos false false

abbrev pub unsubscribed : Text → SessionState → SessionState
unsubscribed topic state = record state { subscriptions = remove topic state.subscriptions }

unfoldable pub unsubscribe_topic : SessionStateStorage → Text → Text → Text → SessionStateStorage
unsubscribe_topic s tenant client topic =
    modify_into s tenant client (unsubscribed topic) (get_session_state s tenant client)

unfoldable pub update_connection_state :
    SessionStateStorage → Text → Text → Option ℕ → Option ℕ → SessionStateStorage
update_connection_state s tenant client disconnected_at interval_update =
    modify_into s tenant client
      (λ state. State.update_connection_state state disconnected_at interval_update)
      (get_session_state s tenant client)

abbrev push_expired : Text → Text → Option ℕ → List (Text × Text × ℕ) → List (Text × Text × ℕ)
push_expired tenant client none found = found
push_expired tenant client (some at) found = (tenant, client, at) ∷ found

unfoldable pub scan_sessions : ℕ → ℕ → Text → Map Text SessionState → List (Text × Text × ℕ)
scan_sessions now ttl tenant [] = []
scan_sessions now ttl tenant ((client, state) ∷ m) =
    push_expired tenant client (expired_disconnected_at state now ttl)
      (scan_sessions now ttl tenant m)

unfoldable pub scan_tenants : ℕ → ℕ → Map Text (Map Text SessionState) → List (Text × Text × ℕ)
scan_tenants now ttl [] = []
scan_tenants now ttl ((tenant, m) ∷ ts) = scan_sessions now ttl tenant m ++ scan_tenants now ttl ts

unfoldable pub scan_expired_sessions : SessionStateStorage → ℕ → ℕ → List (Text × Text × ℕ)
unfolding scan_tenants
scan_expired_sessions s now ttl = scan_tenants now ttl s.inner
