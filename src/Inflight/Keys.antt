-- ===== src/Inflight/Keys.antt =====
-- Packet keys held by the in-flight map, counted: what each operation of inflight.rs takes in and
-- gives out.
use yed_mq.Base.{
  ℕ, ◌+◌, ◌≤◌, ◌≡◌, refl, ap, Bool, ◌||◌, true, Option, none, some, List, [], ◌∷◌, arith, ◌==◌,
  if◌then◌else◌, Text, Map, lookup, insert, remove, Distinct, count, total, measure, total-insert,
  total-remove-le, total-remove, ok, nat_eq, text_eq_instance,
}
use yed_mq.Inflight.{
  Inflight, InflightItem, InflightState, item_keys, push_key, place, register_with_rx_packet,
  register_with_tx_packet, discard_item, discard_unsent, advance_item, to_next, next_state,
  clean_items, clean_finished_items, mark_item, mark_delivery_started, key_of,
}

-- How often the map holds the key `k`.
abbrev pub held : Text → Inflight → ℕ
held k i = count k (item_keys i.inner)

-- How often an optional key is `k`.
abbrev pub hits : Text → Option Text → ℕ
hits k o = count k (push_key o [])

abbrev pub weight : Text → InflightItem → ℕ
weight k item = hits k item.packet_key

count-push_key :
    (k : Text) (o : Option Text) (ks : List Text) → count k (push_key o ks) ≡ hits k o + count k ks
count-push_key k none ks = omega arith
count-push_key k (some j) ks = omega arith

pub count-item_keys :
    (k : Text) (m : Map ℕ InflightItem) → count k (item_keys m) ≡ total (weight k) m
count-item_keys k [] = refl
count-item_keys k ((id, item) ∷ m) =
    omega (arith, count-push_key k item.packet_key (item_keys m), count-item_keys k m)

hits-key_of : (k : Text) (o : Option InflightItem) → hits k (key_of o) ≡ measure (weight k) o
hits-key_of k none = refl
hits-key_of k (some item) = refl

-- Overwriting one item.
held-insert :
    (k : Text) (i : Inflight) (id : ℕ) (item : InflightItem)
    → held k (record i { inner = insert id item i.inner }) + measure (weight k) (lookup id i.inner)
      ≡ held k i + weight k item
held-insert k i id item = omega (
  arith,
  count-item_keys k (insert id item i.inner),
  count-item_keys k i.inner,
  total-insert (weight k) id item i.inner,
)

held-place :
    (k : Text) (i : Inflight) (id : ℕ) (s : InflightState) (key : Text) (now : ℕ)
    → held k (place i id s key now).0 + hits k (place i id s key now).1
      ≡ held k i + hits k (some key)
unfolding place
held-place k i id s key now = omega (
  arith,
  hits-key_of k (lookup id i.inner),
  held-insert k i id (record {
    packet_identifier = id;
    state = s;
    packet_key = some key;
    last_modified = now;
    delivery_started = true;
  }),
)

-- An incoming packet of QoS 1 or 2 is held once more, and the key it displaces is handed back.
pub held-register_rx :
    (k : Text) (i : Inflight) (id qos : ℕ) (key : Text) (now : ℕ)
    → let r = register_with_rx_packet i id qos key now in
      held k r.0 + hits k r.1 ≡ held k i + (if qos == 2 || qos == 1 then hits k (some key) else 0)
unfolding register_with_rx_packet
held-register_rx k i id qos key now = ground (
  arith,
  held-place k i id InflightState.wait_pubrel key now,
  held-place k i id InflightState.finish key now,
)

pub held-register_tx :
    (k : Text) (i : Inflight) (id qos : ℕ) (key : Text) (now : ℕ) {r : Inflight × Option Text}
    → register_with_tx_packet i id qos key now ≡ ok r
    → held k r.0 + hits k r.1 ≡ held k i + (if qos == 2 || qos == 1 then hits k (some key) else 0)
unfolding register_with_tx_packet
held-register_tx k i id qos key now h = ground (
  arith,
  held-place k i id InflightState.wait_pubrec key now,
  held-place k i id InflightState.wait_puback key now,
)

-- A discarded packet's key is handed back, and is held one time less.
discard_item-le :
    (k : Text) (i : Inflight) (id : ℕ) (key : Text) (o : Option InflightItem)
    → lookup id i.inner ≡ o
    → held k (discard_item i id key o).0 + hits k (discard_item i id key o).1 ≤ held k i
unfolding discard_item
discard_item-le k i id key none e = omega arith
discard_item-le k i id key (some item) e = ground (
  arith,
  count-item_keys k (remove id i.inner),
  count-item_keys k i.inner,
  total-remove-le (weight k) id i.inner,
  ap (measure (weight k)) e,
)

pub held-discard-le :
    (k : Text) (i : Inflight) (id : ℕ) (key : Text)
    → held k (discard_unsent i id key).0 + hits k (discard_unsent i id key).1 ≤ held k i
unfolding discard_unsent
held-discard-le k i id key = discard_item-le k i id key (lookup id i.inner) refl

discard_item-eq :
    (k : Text) (i : Inflight) (id : ℕ) (key : Text) (o : Option InflightItem)
    → Distinct i.inner
    → lookup id i.inner ≡ o
    → held k (discard_item i id key o).0 + hits k (discard_item i id key o).1 ≡ held k i
unfolding discard_item
discard_item-eq k i id key none d e = omega arith
discard_item-eq k i id key (some item) d e = ground (
  arith,
  count-item_keys k (remove id i.inner),
  count-item_keys k i.inner,
  total-remove (weight k) id i.inner d,
  ap (measure (weight k)) e,
)

pub held-discard :
    (k : Text) (i : Inflight) (id : ℕ) (key : Text)
    → Distinct i.inner
    → held k (discard_unsent i id key).0 + hits k (discard_unsent i id key).1 ≡ held k i
unfolding discard_unsent
held-discard k i id key d = discard_item-eq k i id key (lookup id i.inner) d refl

-- Moving a packet to its next state keeps every key.
advance_item-held :
    (k : Text) (i : Inflight) (id now : ℕ) (o : Option InflightItem)
    → lookup id i.inner ≡ o
    → held k (advance_item i id now o).0 ≡ held k i
unfolding advance_item
advance_item-held k i id now none e = refl
advance_item-held k i id now (some item) e =
    omega (arith, held-insert k i id (to_next item now), ap (measure (weight k)) e)

pub held-next_state :
    (k : Text) (i : Inflight) (id now : ℕ) → held k (next_state i id now).0 ≡ held k i
unfolding next_state
held-next_state k i id now = advance_item-held k i id now (lookup id i.inner) refl

mark_item-held :
    (k : Text) (i : Inflight) (id : ℕ) (key : Text) (o : Option InflightItem)
    → lookup id i.inner ≡ o
    → held k (mark_item i id key o).0 ≡ held k i
unfolding mark_item
mark_item-held k i id key none e = refl
mark_item-held k i id key (some item) e =
    ground (
      arith,
      held-insert k i id (record item { delivery_started = true }),
      ap (measure (weight k)) e,
    )

pub held-mark :
    (k : Text) (i : Inflight) (id : ℕ) (key : Text)
    → held k (mark_delivery_started i id key).0 ≡ held k i
unfolding mark_delivery_started
held-mark k i id key = mark_item-held k i id key (lookup id i.inner) refl

-- What the clean-up takes out of the map is what it hands back.
clean_items-count :
    (k : Text) (m : Map ℕ InflightItem)
    → count k (item_keys (clean_items m).0) + count k (clean_items m).1 ≡ count k (item_keys m)
unfolding clean_items
clean_items-count k [] = refl
clean_items-count k ((id, item) ∷ m) = ground (
  arith,
  clean_items-count k m,
  count-push_key k item.packet_key (clean_items m).1,
  count-push_key k item.packet_key (item_keys m),
  count-push_key k item.packet_key (item_keys (clean_items m).0),
)

pub held-clean :
    (k : Text) (i : Inflight)
    → held k (clean_finished_items i).0 + count k (clean_finished_items i).1 ≡ held k i
unfolding clean_finished_items
held-clean k i = clean_items-count k i.inner

-- A change of `delivery_started` alone.
pub held-restart :
    (k : Text) (i : Inflight) (id : ℕ) (item : InflightItem) (b : Bool)
    → lookup id i.inner ≡ some item
    → held k (record i { inner = insert id (record item { delivery_started = b }) i.inner })
      ≡ held k i
held-restart k i id item b e =
    omega
      (arith, held-insert k i id (record item { delivery_started = b }), ap (measure (weight k)) e)
