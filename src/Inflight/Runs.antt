-- ===== src/Inflight/Runs.antt =====
-- broker/src/inflight.rs: the passes over the whole map, and the well-formedness after any
-- sequence of operations.
use yed_mq.Base.{
  ℕ, ◌≡◌, refl, Option, none, some, List, [], ◌∷◌, arith, ◌==◌, Text, Map, lookup, Distinct, Result,
  ok, err, nat_eq, ==_iff, subst, sym, ◌∙◌, Bool-cases, Option-cases, inl, inr,
}
use yed_mq.Inflight.{
  Inflight, InflightItem, InflightError, is_overdue, new, register_with_rx_packet,
  register_with_tx_packet, refresh_all, get_all_packet_keys_and_refresh_expired_time,
  refresh_expired, get_all_expired_packet_keys_and_refresh_expired_time, mark_delivery_started,
  discard_unsent, next_state, clean_items, clean_finished_items,
}
use yed_mq.Inflight.Valid.{
  IsValid, rx-IsValid, tx-IsValid, mark_item-IsValid, discard_item-IsValid, advance_item-IsValid,
}

-- Two items that differ in their time stamp at most.
abbrev Restamped : Option InflightItem → Option InflightItem → Type 0
Restamped none o = o ≡ none
Restamped (some x) o =
    (y : InflightItem) × (o ≡ some y)
    × (x.packet_identifier ≡ y.packet_identifier)
    × (x.packet_key ≡ y.packet_key)

Restamped-IsValid :
    (i : Inflight) (m : Map ℕ InflightItem)
    → IsValid i
    → Distinct m
    → ((j : ℕ) → Restamped (lookup j m) (lookup j i.inner))
    → IsValid (record i { inner = m })
Restamped-IsValid i m v d same = record {
  distinct = d;
  filed = λ j x e.
      let (y, f, p, q) = subst (λ o. Restamped o (lookup j i.inner)) e (same j) in
      p ∙ v.filed j y f;
  keyed = λ j x e.
      let (y, f, p, q) = subst (λ o. Restamped o (lookup j i.inner)) e (same j) in
      λ n. v.keyed j y f (sym q ∙ n);
}

refresh_all-lookup :
    (now j : ℕ) (m : Map ℕ InflightItem) → Restamped (lookup j (refresh_all now m).0) (lookup j m)
unfolding refresh_all lookup
refresh_all-lookup now j [] = refl
refresh_all-lookup now j ((id, item) ∷ m) = elim (Bool-cases (id == j)) [
  | inl h ↦ rw h (item, refl, refl, refl)
  | inr h ↦ rw h (refresh_all-lookup now j m)
]

absent_of_Restamped : (o p : Option InflightItem) → Restamped o p → p ≡ none → o ≡ none
absent_of_Restamped none p h e = refl
absent_of_Restamped (some x) p (y, f, r, q) e = cc

refresh_all-Distinct :
    (now : ℕ) (m : Map ℕ InflightItem) → Distinct m → Distinct (refresh_all now m).0
unfolding refresh_all
refresh_all-Distinct now [] d = tt
refresh_all-Distinct now ((id, item) ∷ m) d =
    (absent_of_Restamped _ _ (refresh_all-lookup now id m) d.0, refresh_all-Distinct now m d.1)

refresh_expired-lookup :
    (duration now j : ℕ) (m : Map ℕ InflightItem)
    → Restamped (lookup j (refresh_expired duration now m).0) (lookup j m)
unfolding refresh_expired lookup
refresh_expired-lookup duration now j [] = refl
refresh_expired-lookup duration now j ((id, item) ∷ m) =
    elim (Bool-cases (is_overdue duration now item)) [
      | inl o ↦ rw o (elim (Bool-cases (id == j)) [
        | inl h ↦ rw h (item, refl, refl, refl)
        | inr h ↦ rw h (refresh_expired-lookup duration now j m)
      ])
      | inr o ↦ rw o (elim (Bool-cases (id == j)) [
        | inl h ↦ rw h (item, refl, refl, refl)
        | inr h ↦ rw h (refresh_expired-lookup duration now j m)
      ])
    ]

refresh_expired-Distinct :
    (duration now : ℕ) (m : Map ℕ InflightItem)
    → Distinct m
    → Distinct (refresh_expired duration now m).0
unfolding refresh_expired
refresh_expired-Distinct duration now [] d = tt
refresh_expired-Distinct duration now ((id, item) ∷ m) d =
    let absent : lookup id (refresh_expired duration now m).0 ≡ none =
      absent_of_Restamped _ _ (refresh_expired-lookup duration now id m) d.0 in
    ground (arith, absent, refresh_expired-Distinct duration now m d.1)

clean_items-lookup :
    (j : ℕ) (x : InflightItem) (m : Map ℕ InflightItem)
    → Distinct m
    → lookup j (clean_items m).0 ≡ some x
    → lookup j m ≡ some x
unfolding clean_items lookup
clean_items-lookup j x [] d e = e
clean_items-lookup j x ((id, item) ∷ m) d e = elim (Option-cases (lookup j m)) [
  | inl absent ↦ ground (arith, clean_items-lookup j x m d.1)
  | inr (y, present) ↦ ground (arith, ==_iff id j, clean_items-lookup j x m d.1)
]

clean_items-absent :
    (j : ℕ) (m : Map ℕ InflightItem) → lookup j m ≡ none → lookup j (clean_items m).0 ≡ none
unfolding clean_items lookup
clean_items-absent j [] e = refl
clean_items-absent j ((id, item) ∷ m) e = ground (arith, clean_items-absent j m)

clean_items-Distinct : (m : Map ℕ InflightItem) → Distinct m → Distinct (clean_items m).0
unfolding clean_items
clean_items-Distinct [] d = tt
clean_items-Distinct ((id, item) ∷ m) d =
    ground (arith, clean_items-absent id m d.0, clean_items-Distinct m d.1)

clean-IsValid : (i : Inflight) → IsValid i → IsValid (clean_finished_items i).0
unfolding clean_finished_items
clean-IsValid i v = record {
  distinct = clean_items-Distinct i.inner v.distinct;
  filed = λ j x e. v.filed j x (clean_items-lookup j x i.inner v.distinct e);
  keyed = λ j x e. v.keyed j x (clean_items-lookup j x i.inner v.distinct e);
}

-- The calls that change the map. Times are the clock readings.
pub data Call : Type 0 where
  registers_rx : ℕ → ℕ → Text → ℕ → Call
  registers_tx : ℕ → ℕ → Text → ℕ → Call
  refreshes : ℕ → Call
  refreshes_expired : ℕ → Call
  marks : ℕ → Text → Call
  discards : ℕ → Text → Call
  advances : ℕ → ℕ → Call
  cleans : Call

-- A refused registration leaves the map as it was.
abbrev pub after_tx : Inflight → Result InflightError (Inflight × Option Text) → Inflight
after_tx i (ok r) = r.0
after_tx i (err e) = i

pub step : Inflight → Call → Inflight
step i (registers_rx id qos key now) = (register_with_rx_packet i id qos key now).0
step i (registers_tx id qos key now) = after_tx i (register_with_tx_packet i id qos key now)
step i (refreshes now) = (get_all_packet_keys_and_refresh_expired_time i now).0
step i (refreshes_expired now) = (get_all_expired_packet_keys_and_refresh_expired_time i now).0
step i (marks id key) = (mark_delivery_started i id key).0
step i (discards id key) = (discard_unsent i id key).0
step i (advances id now) = (next_state i id now).0
step i cleans = (clean_finished_items i).0

pub run : Inflight → List Call → Inflight
run i [] = i
run i (c ∷ cs) = run (step i c) cs

after_tx-IsValid :
    (i : Inflight) (id qos : ℕ) (key : Text) (now : ℕ)
    (r : Result InflightError (Inflight × Option Text))
    → IsValid i
    → register_with_tx_packet i id qos key now ≡ r
    → IsValid (after_tx i r)
after_tx-IsValid i id qos key now (ok r) v e = tx-IsValid i id qos key now v e
after_tx-IsValid i id qos key now (err x) v e = v

step-IsValid : (i : Inflight) (c : Call) → IsValid i → IsValid (step i c)
unfolding step mark_delivery_started discard_unsent next_state
    get_all_packet_keys_and_refresh_expired_time
    get_all_expired_packet_keys_and_refresh_expired_time
step-IsValid i (registers_rx id qos key now) v = rx-IsValid i id qos key now v
step-IsValid i (registers_tx id qos key now) v = after_tx-IsValid i id qos key now _ v refl
step-IsValid i (refreshes now) v =
    Restamped-IsValid i _ v (refresh_all-Distinct now i.inner v.distinct)
      (λ j. refresh_all-lookup now j i.inner)
step-IsValid i (refreshes_expired now) v =
    Restamped-IsValid i _ v (refresh_expired-Distinct i.expired_duration now i.inner v.distinct)
      (λ j. refresh_expired-lookup i.expired_duration now j i.inner)
step-IsValid i (marks id key) v = mark_item-IsValid i id key (lookup id i.inner) v refl
step-IsValid i (discards id key) v = discard_item-IsValid i id key (lookup id i.inner) v
step-IsValid i (advances id now) v = advance_item-IsValid i id now (lookup id i.inner) v refl
step-IsValid i cleans v = clean-IsValid i v

run-IsValid : (cs : List Call) (i : Inflight) → IsValid i → IsValid (run i cs)
unfolding run
run-IsValid [] i v = v
run-IsValid (c ∷ cs) i v = run-IsValid cs (step i c) (step-IsValid i c v)

-- After any sequence of calls on a new map: no identifier stands twice, and each packet is filed
-- under its own identifier and has a key.
pub run-new-IsValid : (duration : ℕ) (cs : List Call) → IsValid (run (new duration) cs)
unfolding new lookup
run-new-IsValid duration cs =
    run-IsValid cs (new duration)
      (record { distinct = tt; filed = λ j x e. absurd_none e; keyed = λ j x e. absurd_none e })
  where
    absurd_none : {A : Type 0} {x : InflightItem} → none ≡ some x → A
    absurd_none e = cc
