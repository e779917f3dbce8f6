-- ===== src/Inflight/Valid.antt =====
-- broker/src/inflight.rs: the well-formedness of the in-flight map, kept by every operation.
use yed_mq.Base.{
  ℕ, ◌≡◌, ◌≢◌, refl, true, Option, none, some, arith, Text, lookup, insert, remove, Distinct,
  Distinct-insert, Distinct-remove, lookup-insert, lookup-remove, ok, nat_eq,
}
use yed_mq.Inflight.{
  Inflight, InflightItem, InflightState, place, register_with_rx_packet, register_with_tx_packet,
  mark_item, discard_item, advance_item, to_next,
}

-- No identifier stands twice, and each item is filed under its own identifier and has a key.
pub record IsValid (i : Inflight) : Type 0 where
  pub distinct : Distinct i.inner
  pub filed :
      (id : ℕ) (item : InflightItem) → lookup id i.inner ≡ some item → item.packet_identifier ≡ id
  pub keyed :
      (id : ℕ) (item : InflightItem) → lookup id i.inner ≡ some item → item.packet_key ≢ none

pub insert-IsValid :
    (i : Inflight) (id : ℕ) (item : InflightItem)
    → IsValid i
    → item.packet_identifier ≡ id
    → item.packet_key ≢ none
    → IsValid (record i { inner = insert id item i.inner })
insert-IsValid i id item v h k = record {
  distinct = Distinct-insert id item i.inner v.distinct;
  filed = λ j x e. ground (arith, lookup-insert id j item i.inner, v.filed j x);
  keyed = λ j x e. ground (arith, lookup-insert id j item i.inner, v.keyed j x);
}

place-IsValid :
    (i : Inflight) (id : ℕ) (s : InflightState) (key : Text) (now : ℕ)
    → IsValid i
    → IsValid (place i id s key now).0
unfolding place
place-IsValid i id s key now v = insert-IsValid i id _ v refl (λ e. cc)

pub rx-IsValid :
    (i : Inflight) (id qos : ℕ) (key : Text) (now : ℕ)
    → IsValid i
    → IsValid (register_with_rx_packet i id qos key now).0
unfolding register_with_rx_packet
rx-IsValid i id qos key now v = ground (
  arith,
  v,
  place-IsValid i id InflightState.wait_pubrel key now v,
  place-IsValid i id InflightState.finish key now v,
)

pub tx-IsValid :
    (i : Inflight) (id qos : ℕ) (key : Text) (now : ℕ) {r : Inflight × Option Text}
    → IsValid i
    → register_with_tx_packet i id qos key now ≡ ok r
    → IsValid r.0
unfolding register_with_tx_packet
tx-IsValid i id qos key now v h = ground (
  arith,
  v,
  place-IsValid i id InflightState.wait_pubrec key now v,
  place-IsValid i id InflightState.wait_puback key now v,
)

pub mark_item-IsValid :
    (i : Inflight) (id : ℕ) (key : Text) (o : Option InflightItem)
    → IsValid i
    → lookup id i.inner ≡ o
    → IsValid (mark_item i id key o).0
unfolding mark_item
mark_item-IsValid i id key none v e = v
mark_item-IsValid i id key (some item) v e = ground (
  arith,
  v,
  insert-IsValid i id (record item { delivery_started = true }) v (v.filed id item e)
      (v.keyed id item e),
)

remove-IsValid :
    (i : Inflight) (id : ℕ) → IsValid i → IsValid (record i { inner = remove id i.inner })
remove-IsValid i id v = record {
  distinct = Distinct-remove id i.inner v.distinct;
  filed = λ j x e. ground (arith, lookup-remove id j i.inner, v.filed j x);
  keyed = λ j x e. ground (arith, lookup-remove id j i.inner, v.keyed j x);
}

pub discard_item-IsValid :
    (i : Inflight) (id : ℕ) (key : Text) (o : Option InflightItem)
    → IsValid i
    → IsValid (discard_item i id key o).0
unfolding discard_item
discard_item-IsValid i id key none v = v
discard_item-IsValid i id key (some item) v = ground (arith, v, remove-IsValid i id v)

pub advance_item-IsValid :
    (i : Inflight) (id now : ℕ) (o : Option InflightItem)
    → IsValid i
    → lookup id i.inner ≡ o
    → IsValid (advance_item i id now o).0
unfolding advance_item
advance_item-IsValid i id now none v e = v
advance_item-IsValid i id now (some item) v e =
    insert-IsValid i id (to_next item now) v (v.filed id item e) (v.keyed id item e)
