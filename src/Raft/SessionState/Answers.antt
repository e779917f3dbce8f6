-- ===== src/Raft/SessionState/Answers.antt =====
-- broker/src/raft/session_state/store.rs, `apply`: every log is answered.
use yed_mq.Base.{ℕ, ◌≤◌, ◌≡◌, refl, Bool, Option, none, some, List, [], ◌∷◌, arith, Text, All}
use yed_mq.Session.State.{QoS}
use yed_mq.Raft.SessionState.{
  StateMachine, Entry, EntryPayload, blank, normal, membership, SessionStateResponse, Applied,
  replied, create_state, delete_state, register_rx_packet, register_tx_packet, start_delivery,
  discard_packet, get_current_packet, advance_packet, clean_finish_items, append_pending,
  pop_pending, subscribe, unsubscribe, update_connection, subscribe_as, qos_of, apply_request,
  apply_payload, apply_entry, apply,
}

-- The QoS of a subscription is 0, 1 or 2.
abbrev pub HasQos : EntryPayload → Type 0
HasQos (normal (subscribe tenant client topic qos a b)) = qos ≤ 2
HasQos _ = Unit {0}

abbrev pub EntryHasQos : Entry → Type 0
EntryHasQos e = HasQos e.payload

abbrev Answered : Applied → Type 0
Answered a = (sm : StateMachine) × (reply : SessionStateResponse) × (a ≡ replied sm reply)

subscribe-Answered :
    (sm : StateMachine) (tenant client topic : Text) (qos : ℕ) (a b : Bool)
    → qos ≤ 2
    → Answered (subscribe_as sm tenant client topic a b (qos_of qos))
subscribe-Answered sm tenant client topic qos a b h = go (qos_of qos) refl
  where
    go : (o : Option QoS) → qos_of qos ≡ o → Answered (subscribe_as sm tenant client topic a b o)
    go none e = absurd (unfold qos_of in ground arith)
    go (some q) e = unfold subscribe_as in (_, _, refl)

module _ (payload_store : Text → Option (List ℕ)) where
  payload-Answered :
      (sm : StateMachine) (index now : ℕ) (p : EntryPayload)
      → HasQos p
      → Answered (apply_payload payload_store sm index now p)
  unfolding apply_payload apply_request
  payload-Answered sm index now (normal (subscribe tenant client topic qos a b)) h =
      subscribe-Answered sm tenant client topic qos a b h
  payload-Answered sm index now (normal (register_rx_packet tenant client id qos key)) h =
      (_, _, refl)
  payload-Answered sm index now (normal (register_tx_packet tenant client id qos key deferred)) h =
      (_, _, refl)
  payload-Answered sm index now (normal (start_delivery tenant client id key)) h = (_, _, refl)
  payload-Answered sm index now (normal (discard_packet tenant client id key)) h = (_, _, refl)
  payload-Answered sm index now (normal (get_current_packet tenant client id)) h = (_, _, refl)
  payload-Answered sm index now (normal (advance_packet tenant client id)) h = (_, _, refl)
  payload-Answered sm index now (normal (clean_finish_items tenant client)) h = (_, _, refl)
  payload-Answered sm index now (normal (append_pending tenant client key)) h = (_, _, refl)
  payload-Answered sm index now (normal (pop_pending tenant client)) h = (_, _, refl)
  payload-Answered sm index now (normal (unsubscribe tenant client topic)) h = (_, _, refl)
  payload-Answered sm index now (normal (create_state tenant client d v i)) h = (_, _, refl)
  payload-Answered sm index now (normal (delete_state tenant client expected)) h = (_, _, refl)
  payload-Answered sm index now (normal (update_connection tenant client at i)) h = (_, _, refl)
  payload-Answered sm index now blank h = (_, _, refl)
  payload-Answered sm index now (membership m) h = (_, _, refl)

  -- Every log whose subscriptions have a QoS of 0, 1 or 2 is applied to its end.
  pub apply_total :
      (es : List Entry) (sm : StateMachine)
      → All EntryHasQos es
      → (r : StateMachine × List SessionStateResponse) × (apply payload_store sm es ≡ some r)
  unfolding apply apply_entry
  apply_total [] sm h = ((sm, []), refl)
  apply_total (e ∷ es) sm h =
      let (sm', reply, q) =
        payload-Answered (record sm { last_applied = some e.index }) e.index e.now e.payload h.0 in
      let (r, p) = apply_total es sm' h.1 in ((r.0, reply ∷ r.1), rw (q, p))
