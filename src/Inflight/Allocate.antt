-- ===== src/Inflight/Allocate.antt =====
-- broker/src/inflight.rs, `allocate_packet_id`: the search for a free packet identifier.
use yed_mq.Base.{
  ℕ, zero, suc, ◌+◌, ◌≤◌, ◌<◌, ◌≡◌, inl, inr, true, ◌==◌, length-remove-lt, none, some, arith,
  is_some, Map, lookup, remove, lookup-remove, length, nat_eq, Bool-cases, Option-cases,
}
use yed_mq.Inflight.{Inflight, InflightItem, find_free, allocate_packet_id, max_packet_id}

abbrev pub InUse : Map ℕ InflightItem → ℕ → Type 0
InUse m id = is_some (lookup id m) ≡ true

find_free_sound :
    (rounds from : ℕ) (m : Map ℕ InflightItem) {id : ℕ}
    → find_free rounds from m ≡ some id
    → (from ≤ id) × (id < from + rounds) × (lookup id m ≡ none)
unfolding find_free
find_free_sound zero from m e = cc
find_free_sound (suc rounds) from m {id} e =
    ground (arith, find_free_sound rounds (suc from) m {id = id})

find_free_least :
    (rounds from : ℕ) (m : Map ℕ InflightItem) (j : ℕ) {id : ℕ}
    → find_free rounds from m ≡ some id
    → from ≤ j
    → j < id
    → InUse m j
unfolding find_free
find_free_least zero from m j e lo hi = cc
find_free_least (suc rounds) from m j {id} e lo hi = elim (Bool-cases (j == from)) [
  | inl here ↦ ground arith
  | inr later ↦ ground (arith, find_free_least rounds (suc from) m j {id = id})
]

find_free-none :
    (rounds from : ℕ) (m : Map ℕ InflightItem)
    → find_free rounds from m ≡ none
    → (j : ℕ) → from ≤ j
    → j < from + rounds
    → InUse m j
unfolding find_free
find_free-none zero from m e j lo hi = absurd (omega arith)
find_free-none (suc rounds) from m e j lo hi = elim (Bool-cases (j == from)) [
  | inl here ↦ ground arith
  | inr later ↦ ground (arith, find_free-none rounds (suc from) m _ j)
]

-- A map that holds every identifier of a range is at least as long as the range.
range_fits :
    (rounds from : ℕ) (m : Map ℕ InflightItem)
    → ((j : ℕ) → from ≤ j → j < from + rounds → InUse m j)
    → rounds ≤ length m
range_fits zero from m h = omega arith
range_fits (suc rounds) from m h = omega (
  arith,
  length-remove-lt from m (h from (omega arith) (omega arith)),
  range_fits rounds (suc from) (remove from m)
      (λ j lo hi. ground (arith, lookup-remove from j m, h j (omega arith) (omega arith))),
)

-- The identifier lies in 1..=65535, is free, and is the least free one.
pub allocate_sound :
    (i : Inflight) {id : ℕ}
    → allocate_packet_id i ≡ some id
    → (1 ≤ id)
      × (id ≤ max_packet_id)
      × (lookup id i.inner ≡ none)
      × ((j : ℕ) → 1 ≤ j → j < id → InUse i.inner j)
unfolding allocate_packet_id
allocate_sound i {id} e =
    let (lo, hi, free) = find_free_sound max_packet_id 1 i.inner e in
    (lo, omega arith, free, λ j. find_free_least max_packet_id 1 i.inner j e)

-- Fewer than 65535 packets in flight: an identifier is found. None is found only when each of
-- 1..=65535 is in use.
pub allocate_complete :
    (i : Inflight)
    → (length i.inner < max_packet_id → (id : ℕ) × (allocate_packet_id i ≡ some id))
      × (allocate_packet_id i ≡ none → (j : ℕ) → 1 ≤ j → j ≤ max_packet_id → InUse i.inner j)
unfolding allocate_packet_id
allocate_complete i =
    (found, λ e j lo hi. find_free-none max_packet_id 1 i.inner e j lo (omega arith))
  where
    found :
        length i.inner < max_packet_id → (id : ℕ) × (find_free max_packet_id 1 i.inner ≡ some id)
    found few = elim (Option-cases (find_free max_packet_id 1 i.inner)) [
      | inr hit ↦ hit
      | inl e ↦ absurd (
          omega
            (arith, range_fits max_packet_id 1 i.inner (find_free-none max_packet_id 1 i.inner e)))
    ]
