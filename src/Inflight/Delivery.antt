-- ===== src/Inflight/Delivery.antt =====
-- broker/src/inflight.rs: the handshakes of QoS 1 and 2, retransmission, and the cancellation of
-- packets that were never sent.
use yed_mq.Base.{
  ℕ, zero, suc, ◌+◌, ◌≤◌, ◌<◌, ◌^◌, ◌≡◌, ◌≢◌, refl, ap, ◌||◌, ◌⊎◌, inl, inr, true, false, Option,
  none, some, [], ◌∷◌, arith, Text, text_eq_iff, Map, lookup, insert, lookup-insert, lookup-remove,
  nat_eq, if◌then◌else◌, ◌==◌, ok, err, Option-cases,
}
use yed_mq.Inflight.{
  Inflight, InflightItem, InflightState, InflightError, state_of, key_is, awaits_sender, next_of,
  to_next, advance_item, next_state, mark_item, mark_delivery_started, discard_item, discard_unsent,
  get_inflight_current_state, register_with_tx_packet, refresh_expired,
  get_all_expired_packet_keys_and_refresh_expired_time,
}
use yed_mq.Inflight.InflightState.{wait_pubrel, wait_pubcomp, wait_pubrec, wait_puback, finish}

-- Acknowledgements that a packet in this state still waits for.
abbrev pub steps_left : InflightState → ℕ
steps_left wait_pubrec = 2
steps_left finish = 0
steps_left _ = 1

pub steps_left-next_of :
    (s : InflightState) → s ≢ finish → steps_left s ≡ suc (steps_left (next_of s))
unfolding next_of
steps_left-next_of wait_pubrel h = refl
steps_left-next_of wait_pubcomp h = refl
steps_left-next_of wait_pubrec h = refl
steps_left-next_of wait_puback h = refl
steps_left-next_of finish h = absurd (h refl)

abbrev pub advance : Option InflightState → Option InflightState
advance none = none
advance (some s) = some (next_of s)

advance_item-state :
    (i : Inflight) (id now j : ℕ) (o : Option InflightItem)
    → lookup id i.inner ≡ o
    → get_inflight_current_state (advance_item i id now o).0 j
      ≡ (if id == j then advance (state_of o) else get_inflight_current_state i j)
unfolding advance_item get_inflight_current_state next_of
advance_item-state i id now j none e = ground arith
advance_item-state i id now j (some item) e =
    ground (arith, lookup-insert id j (to_next item now) i.inner)

-- `next_state` moves the packet with this identifier one step and no other.
pub next_state-state :
    (i : Inflight) (id now j : ℕ)
    → get_inflight_current_state (next_state i id now).0 j ≡ (
        if id == j
        then advance (get_inflight_current_state i id)
        else get_inflight_current_state i j)
unfolding next_state get_inflight_current_state next_of
next_state-state i id now j = advance_item-state i id now j (lookup id i.inner) refl

-- The same acknowledgement step, several times over.
pub advance_times : ℕ → Inflight → ℕ → ℕ → Inflight
advance_times zero i id now = i
advance_times (suc n) i id now = advance_times n (next_state i id now).0 id now

advance_times_state :
    (n : ℕ) (i : Inflight) (id now : ℕ) (s : InflightState)
    → get_inflight_current_state i id ≡ some s
    → steps_left s ≤ n
    → get_inflight_current_state (advance_times n i id now) id ≡ some finish
unfolding advance_times
advance_times_state zero i id now finish e h = e
advance_times_state zero i id now wait_pubrel e h = absurd (omega arith)
advance_times_state zero i id now wait_pubcomp e h = absurd (omega arith)
advance_times_state zero i id now wait_pubrec e h = absurd (omega arith)
advance_times_state zero i id now wait_puback e h = absurd (omega arith)
advance_times_state (suc n) i id now s e h =
    advance_times_state n (next_state i id now).0 id now (next_of s)
      (rw (next_state-state i id now id, e) (ground arith)) (steps_fall s h)
  where
    steps_fall : (t : InflightState) → steps_left t ≤ suc n → steps_left (next_of t) ≤ n
    steps_fall t k = unfold next_of in ground arith

-- Every handshake ends: whatever state a packet is in, the state `finish` is reached after the
-- acknowledgements that are left (two at most), and it is not left again.
pub handshake_completes :
    (i : Inflight) (id now n : ℕ) (s : InflightState)
    → get_inflight_current_state i id ≡ some s
    → steps_left s ≤ n
    → (steps_left s ≤ 2) × (get_inflight_current_state (advance_times n i id now) id ≡ some finish)
handshake_completes i id now n s e h = (ground arith, advance_times_state n i id now s e h)

mark_then_discard :
    (i : Inflight) (id : ℕ) (key key' : Text) (o : Option InflightItem) {i' : Inflight}
    → lookup id i.inner ≡ o
    → mark_item i id key o ≡ (i', true)
    → discard_item i' id key' (lookup id i'.inner) ≡ (i', none)
unfolding mark_item discard_item
mark_then_discard i id key key' none e h = absurd (ground arith)
mark_then_discard i id key key' (some item) e h =
    ground (arith, lookup-insert id id (record item { delivery_started = true }) i.inner)

-- A packet whose delivery was marked as started is never cancelled, whatever key is given.
pub discard-mark :
    (i : Inflight) (id : ℕ) (key key' : Text) {i' : Inflight}
    → mark_delivery_started i id key ≡ (i', true)
    → discard_unsent i' id key' ≡ (i', none)
unfolding mark_delivery_started discard_unsent
discard-mark i id key key' h = mark_then_discard i id key key' (lookup id i.inner) refl h

-- A cancelled packet: it was there under the key, unsent, and waited for its first acknowledgement.
pub record Cancelled (i : Inflight) (id : ℕ) (key : Text) (i' : Inflight) (k : Text) : Type 0 where
  pub item : InflightItem
  pub present : lookup id i.inner ≡ some item
  pub unsent : item.delivery_started ≡ false
  pub waits : awaits_sender item.state ≡ true
  pub same_key : item.packet_key ≡ some key
  pub returned : k ≡ key
  pub others : (j : ℕ) → lookup j i'.inner ≡ (if id == j then none else lookup j i.inner)

key_is→eq : (o : Option Text) (key : Text) → key_is o key ≡ true → o ≡ some key
key_is→eq none key h = cc
key_is→eq (some k) key h = ap some ((text_eq_iff k key).0 h)

discard_item-some :
    (i : Inflight) (id : ℕ) (key : Text) (o : Option InflightItem) {i' : Inflight} {k : Text}
    → lookup id i.inner ≡ o
    → discard_item i id key o ≡ (i', some k)
    → Cancelled i id key i' k
unfolding discard_item
discard_item-some i id key none e h = cc
discard_item-some i id key (some item) {i'} {k} e h = record {
  item = item;
  present = e;
  unsent = ground arith;
  waits = ground arith;
  same_key = key_is→eq item.packet_key key (ground arith);
  returned = ground (arith, key_is→eq item.packet_key key);
  others = λ j. ground (arith, lookup-remove id j i.inner);
}

-- Only a packet that was never sent is cancelled: a call that gives back a key found the packet under
-- that key, not started and waiting for its first acknowledgement, gives back this key, and takes
-- the packet out of the map and no other.
pub discard_some :
    (i : Inflight) (id : ℕ) (key : Text) {i' : Inflight} {k : Text}
    → discard_unsent i id key ≡ (i', some k)
    → Cancelled i id key i' k
unfolding discard_unsent
discard_some i id key h = discard_item-some i id key (lookup id i.inner) refl h

discard_item-none :
    (i : Inflight) (id : ℕ) (key : Text) (o : Option InflightItem)
    → (discard_item i id key o).1 ≡ none
    → (discard_item i id key o).0 ≡ i
unfolding discard_item
discard_item-none i id key none h = refl
discard_item-none i id key (some item) h = ground (arith, key_is→eq item.packet_key key)

-- A cancellation that gives back no key changes nothing.
pub discard_none :
    (i : Inflight) (id : ℕ) (key : Text)
    → (discard_unsent i id key).1 ≡ none
    → (discard_unsent i id key).0 ≡ i
unfolding discard_unsent
discard_none i id key h = discard_item-none i id key (lookup id i.inner) h

-- A registration for sending never overwrites: it fails exactly when the identifier is in flight,
-- and otherwise displaces no key.
pub register_tx_fresh :
    (i : Inflight) (id qos : ℕ) (key : Text) (now : ℕ)
    → ((lookup id i.inner ≢ none)
        × (register_with_tx_packet i id qos key now
            ≡ err InflightError.packet_identifier_has_existed))
      ⊎ ((i' : Inflight) × (lookup id i.inner ≡ none)
          × (register_with_tx_packet i id qos key now ≡ ok (i', none))
          × ((j : ℕ) → id ≢ j → lookup j i'.inner ≡ lookup j i.inner))
unfolding register_with_tx_packet
register_tx_fresh i id qos key now = elim (Option-cases (lookup id i.inner)) [
  | inr (item, e) ↦ inl (λ h. cc, ground arith)
  | inl e ↦ inr (i', e, ground arith, λ j h. ground (arith, lookup-insert id j item i.inner))
]
  where
    item : InflightItem
    item = record {
      packet_identifier = id;
      state = if qos == 2 then wait_pubrec else wait_puback;
      packet_key = some key;
      last_modified = now;
      delivery_started = true;
    }

    i' : Inflight
    i' = if qos == 2 || qos == 1 then record i { inner = insert id item i.inner } else i

refresh_expired_again :
    (duration now : ℕ) (m : Map ℕ InflightItem)
    → now + duration < 2 ^ 64
    → (refresh_expired duration now (refresh_expired duration now m).0).1 ≡ []
unfolding refresh_expired
refresh_expired_again duration now [] h = refl
refresh_expired_again duration now ((id, item) ∷ m) h =
    ground (arith, refresh_expired_again duration now m)

-- A packet that was just retransmitted is not retransmitted again in the same second, where the
-- clock and the retry interval stay inside a `u64`.
pub retransmit_once :
    (i : Inflight) (now : ℕ)
    → now + i.expired_duration < 2 ^ 64
    → (get_all_expired_packet_keys_and_refresh_expired_time
        (get_all_expired_packet_keys_and_refresh_expired_time i now).0
        now).1
      ≡ []
unfolding get_all_expired_packet_keys_and_refresh_expired_time
retransmit_once i now h = refresh_expired_again i.expired_duration now i.inner h
