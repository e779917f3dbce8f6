-- ===== src/Inflight.antt =====
-- broker/src/inflight.rs: the packets of one session that wait for an acknowledgement.
-- A clock reading is an argument `now`, in whole seconds, and a call reads the clock once.
-- `Duration` stands as its whole seconds, the only part the code reads.
pub mod Keys
pub mod Delivery
pub mod Allocate
pub mod Valid
pub mod Runs
mod Tests
use yed_mq.Base.{
  ℕ, zero, suc, ◌+◌, ◌%◌, ◌^◌, Bool, true, false, ◌||◌, not, Option, none, some, List, [], ◌∷◌, ltb,
  ◌==◌, if◌then◌else◌, Text, text_eq, Map, lookup, insert, remove, Result, ok, err, is_some, nat_eq,
}

pub data InflightError : Type 0 where
  packet_identifier_has_existed : InflightError

pub data InflightState : Type 0 where
  wait_pubrel wait_pubcomp wait_pubrec wait_puback finish : InflightState

pub record InflightItem : Type 0 where
  pub packet_identifier : ℕ
  pub state : InflightState
  pub packet_key : Option Text
  pub last_modified : ℕ
  pub delivery_started : Bool

pub record Inflight : Type 0 where
  pub inner : Map ℕ InflightItem
  pub expired_duration : ℕ

unfoldable pub new : ℕ → Inflight
new expired_duration = record { inner = []; expired_duration = expired_duration }

-- `filter_map(|item| item.packet_key.clone())` over the values.
abbrev pub push_key : Option Text → List Text → List Text
push_key none ks = ks
push_key (some k) ks = k ∷ ks

abbrev pub item_keys : Map ℕ InflightItem → List Text
item_keys [] = []
item_keys ((id, item) ∷ m) = push_key item.packet_key (item_keys m)

unfoldable pub get_all_packet_keys : Inflight → List Text
get_all_packet_keys i = item_keys i.inner

abbrev key_of : Option InflightItem → Option Text
key_of none = none
key_of (some item) = item.packet_key

-- The block that both registrations repeat: the new item goes in, the old item's key comes out.
place : Inflight → ℕ → InflightState → Text → ℕ → Inflight × Option Text
place i id s key now = (record i { inner = insert id item i.inner }, key_of (lookup id i.inner))
  where
    item : InflightItem
    item = record {
      packet_identifier = id;
      state = s;
      packet_key = some key;
      last_modified = now;
      delivery_started = true;
    }

unfoldable pub register_with_rx_packet : Inflight → ℕ → ℕ → Text → ℕ → Inflight × Option Text
unfolding place
register_with_rx_packet i id qos key now =
    if qos == 2
    then place i id wait_pubrel key now
    else if qos == 1
    then place i id finish key now
    else (i, none)

unfoldable pub packet_id_exists : Inflight → ℕ → Bool
packet_id_exists i id = is_some (lookup id i.inner)

unfoldable pub register_with_tx_packet :
    Inflight → ℕ → ℕ → Text → ℕ → Result InflightError (Inflight × Option Text)
unfolding packet_id_exists place
register_with_tx_packet i id qos key now =
    if packet_id_exists i id
    then err packet_identifier_has_existed
    else ok (
        if qos == 2
        then place i id wait_pubrec key now
        else if qos == 1
        then place i id wait_puback key now
        else (i, none))

abbrev push_pair : ℕ → Option Text → List (ℕ × Text) → List (ℕ × Text)
push_pair id none ks = ks
push_pair id (some k) ks = (id, k) ∷ ks

unfoldable pub refresh_all : ℕ → Map ℕ InflightItem → Map ℕ InflightItem × List (ℕ × Text)
refresh_all now [] = ([], [])
refresh_all now ((id, item) ∷ m) =
    let (m', ks) = refresh_all now m in
    (
      (id, record item { last_modified = now }) ∷ m',
      push_pair item.packet_identifier item.packet_key ks,
    )

unfoldable pub get_all_packet_keys_and_refresh_expired_time :
    Inflight → ℕ → Inflight × List (ℕ × Text)
unfolding refresh_all
get_all_packet_keys_and_refresh_expired_time i now =
    let (m, ks) = refresh_all now i.inner in (record i { inner = m }, ks)

-- `last_modified + expired_duration < now`, a sum of two `u64`.
abbrev pub is_overdue : ℕ → ℕ → InflightItem → Bool
is_overdue duration now item = ltb ((item.last_modified + duration) % 2 ^ 64) now

unfoldable pub refresh_expired : ℕ → ℕ → Map ℕ InflightItem → Map ℕ InflightItem × List (ℕ × Text)
refresh_expired duration now [] = ([], [])
refresh_expired duration now ((id, item) ∷ m) =
    let (m', ks) = refresh_expired duration now m in
    if is_overdue duration now item
    then (
      (id, record item { last_modified = now }) ∷ m',
      push_pair item.packet_identifier item.packet_key ks,
    )
    else ((id, item) ∷ m', ks)

unfoldable pub get_all_expired_packet_keys_and_refresh_expired_time :
    Inflight → ℕ → Inflight × List (ℕ × Text)
unfolding refresh_expired
get_all_expired_packet_keys_and_refresh_expired_time i now =
    let (m, ks) = refresh_expired i.expired_duration now i.inner in (record i { inner = m }, ks)

unfoldable pub get_next_state_packet_key : Inflight → ℕ → Option Text
get_next_state_packet_key i id = key_of (lookup id i.inner)

-- `(from..from + rounds).find(|id| !contains_key(id))`
pub find_free : ℕ → ℕ → Map ℕ InflightItem → Option ℕ
find_free zero id m = none
find_free (suc rounds) id m =
    let rest = find_free rounds (suc id) m in if is_some (lookup id m) then rest else some id

abbrev pub max_packet_id : ℕ
max_packet_id = 65535

unfoldable pub allocate_packet_id : Inflight → Option ℕ
allocate_packet_id i = find_free max_packet_id 1 i.inner

unfoldable pub get_current_packet_key : Inflight → ℕ → Option Text
get_current_packet_key i id = key_of (lookup id i.inner)

abbrev state_of : Option InflightItem → Option InflightState
state_of none = none
state_of (some item) = some item.state

unfoldable pub get_inflight_current_state : Inflight → ℕ → Option InflightState
get_inflight_current_state i id = state_of (lookup id i.inner)

-- `item.packet_key.as_deref() == Some(key)`
abbrev pub key_is : Option Text → Text → Bool
key_is none key = false
key_is (some k) key = text_eq k key

unfoldable pub mark_item : Inflight → ℕ → Text → Option InflightItem → Inflight × Bool
mark_item i id key none = (i, false)
mark_item i id key (some item) =
    if key_is item.packet_key key
    then (record i { inner = insert id (record item { delivery_started = true }) i.inner }, true)
    else (i, false)

unfoldable pub mark_delivery_started : Inflight → ℕ → Text → Inflight × Bool
unfolding mark_item
mark_delivery_started i id key = mark_item i id key (lookup id i.inner)

abbrev pub awaits_sender : InflightState → Bool
awaits_sender wait_puback = true
awaits_sender wait_pubrec = true
awaits_sender _ = false

unfoldable pub discard_item : Inflight → ℕ → Text → Option InflightItem → Inflight × Option Text
discard_item i id key none = (i, none)
discard_item i id key (some item) =
    if item.delivery_started || not (key_is item.packet_key key) || not (awaits_sender item.state)
    then (i, none)
    else (record i { inner = remove id i.inner }, item.packet_key)

unfoldable pub discard_unsent : Inflight → ℕ → Text → Inflight × Option Text
unfolding discard_item
discard_unsent i id key = discard_item i id key (lookup id i.inner)

unfoldable pub next_of : InflightState → InflightState
next_of wait_pubrel = finish
next_of wait_pubcomp = finish
next_of wait_pubrec = wait_pubcomp
next_of wait_puback = finish
next_of finish = finish

unfoldable pub to_next : InflightItem → ℕ → InflightItem
to_next item now = record item { state = next_of item.state; last_modified = now }

abbrev pub is_finish : InflightState → Bool
is_finish finish = true
is_finish _ = false

unfoldable pub advance_item : Inflight → ℕ → ℕ → Option InflightItem → Inflight × Option Text
unfolding to_next
advance_item i id now none = (i, none)
advance_item i id now (some item) =
    let item' = to_next item now in
    (
      record i { inner = insert id item' i.inner },
      if is_finish item'.state then item'.packet_key else none,
    )

unfoldable pub next_state : Inflight → ℕ → ℕ → Inflight × Option Text
unfolding advance_item
next_state i id now = advance_item i id now (lookup id i.inner)

-- `retain`: a finished item goes, and its key is collected.
unfoldable pub clean_items : Map ℕ InflightItem → Map ℕ InflightItem × List Text
clean_items [] = ([], [])
clean_items ((id, item) ∷ m) =
    let (m', ks) = clean_items m in
    if is_finish item.state then (m', push_key item.packet_key ks) else ((id, item) ∷ m', ks)

unfoldable pub clean_finished_items : Inflight → Inflight × List Text
unfolding clean_items
clean_finished_items i = let (m, ks) = clean_items i.inner in (record i { inner = m }, ks)
