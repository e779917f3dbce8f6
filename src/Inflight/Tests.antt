-- ===== src/Inflight/Tests.antt =====
-- broker/src/inflight.rs on concrete packets.
use yed_mq.Base.{
  ℕ, ◌+◌, ◌≤◌, ◌<◌, ◌^◌, ◌≡◌, ◌≢◌, ◌⊎◌, refl, true, false, Option, none, some, List, [], ◌∷◌, arith,
  Text, ok, err, length, lookup, nat_eq,
}
use yed_mq.Inflight.{
  Inflight, InflightItem, InflightState, InflightError, new, next_state, discard_unsent,
  mark_delivery_started, get_inflight_current_state, register_with_tx_packet, allocate_packet_id,
  max_packet_id, get_all_expired_packet_keys_and_refresh_expired_time,
}
use yed_mq.Inflight.Delivery.{
  advance_times, handshake_completes, Cancelled, discard-mark, discard_some, register_tx_fresh,
  retransmit_once,
}
use yed_mq.Inflight.Allocate.{InUse, allocate_sound, allocate_complete}
use yed_mq.Inflight.Valid.{IsValid}
use yed_mq.Inflight.Runs.{Call, run, run-new-IsValid}

abbrev key_a : Text
key_a = b'a' ∷ []

abbrev key_b : Text
key_b = b'b' ∷ []

-- A packet of QoS 2, registered and not sent yet.
abbrev unsent_item : InflightItem
unsent_item = record {
  packet_identifier = 1;
  state = InflightState.wait_pubrec;
  packet_key = some key_a;
  last_modified = 100;
  delivery_started = false;
}

abbrev one_packet : Inflight
one_packet = record { inner = (1, unsent_item) ∷ []; expired_duration = 60 }

abbrev marked : Inflight
marked = record {
  inner = (1, record unsent_item { delivery_started = true }) ∷ [];
  expired_duration = 60;
}

handshake_completes_example :
    (2 ≤ 2)
    × (get_inflight_current_state (advance_times 2 one_packet 1 200) 1 ≡ some InflightState.finish)
unfolding get_inflight_current_state lookup
handshake_completes_example =
    handshake_completes one_packet 1 200 2 InflightState.wait_pubrec refl (omega arith)

discard-mark_example : discard_unsent marked 1 key_a ≡ (marked, none)
unfolding mark_delivery_started lookup yed_mq.Base.text_eq yed_mq.Base.insert
discard-mark_example = discard-mark one_packet 1 key_a key_a refl

discard_some_example : Cancelled one_packet 1 key_a (new 60) key_a
unfolding discard_unsent new lookup yed_mq.Base.text_eq yed_mq.Base.remove
discard_some_example = discard_some one_packet 1 key_a refl

register_tx_fresh_example :
    ((lookup 1 one_packet.inner ≢ none)
      × (register_with_tx_packet one_packet 1 2 key_b 200
          ≡ err InflightError.packet_identifier_has_existed))
    ⊎ ((i' : Inflight) × (lookup 1 one_packet.inner ≡ none)
        × (register_with_tx_packet one_packet 1 2 key_b 200 ≡ ok (i', none))
        × ((j : ℕ) → 1 ≢ j → lookup j i'.inner ≡ lookup j one_packet.inner))
register_tx_fresh_example = register_tx_fresh one_packet 1 2 key_b 200

retransmit_once_example :
    (get_all_expired_packet_keys_and_refresh_expired_time
      (get_all_expired_packet_keys_and_refresh_expired_time one_packet 200).0
      200).1
    ≡ []
retransmit_once_example = retransmit_once one_packet 200 (omega arith)

allocate_sound_example :
    (1 ≤ 2)
    × (2 ≤ max_packet_id)
    × (lookup 2 one_packet.inner ≡ none)
    × ((j : ℕ) → 1 ≤ j → j < 2 → InUse one_packet.inner j)
unfolding allocate_packet_id yed_mq.Inflight.find_free lookup
allocate_sound_example = allocate_sound one_packet refl

allocate_complete_example :
    (length one_packet.inner < max_packet_id → (id : ℕ) × (allocate_packet_id one_packet ≡ some id))
    × (allocate_packet_id one_packet ≡ none
        → (j : ℕ) → 1 ≤ j
        → j ≤ max_packet_id
        → InUse one_packet.inner j)
allocate_complete_example = allocate_complete one_packet

abbrev calls : List Call
calls =
    Call.registers_tx 1 2 key_a 100
    ∷ Call.registers_rx 7 1 key_b 101
    ∷ Call.advances 1 102
    ∷ Call.cleans
    ∷ []

run-new-IsValid_example : IsValid (run (new 60) calls)
run-new-IsValid_example = run-new-IsValid 60 calls
