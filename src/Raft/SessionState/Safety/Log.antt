-- ===== src/Raft/SessionState/Safety/Log.antt =====
-- broker/src/raft/session_state/store.rs, `apply`: the whole log of session commands.
use yed_mq.Base.{
  ℕ, suc, ◌+◌, ◌-◌, ◌^◌, ◌≤◌, ◌<◌, ◌≡◌, refl, ap, subst, Option, none, some, List, [], ◌∷◌, arith,
  Text, length, text_eq_instance, lookup,
}
use yed_mq.Session.Storage.{SessionStateStorage}
use yed_mq.Session.Storage.Counts.{ref_of}
use yed_mq.Session.Storage.Safety.{Covers}
use yed_mq.Raft.SessionState.{
  StateMachine, Entry, EntryPayload, blank, normal, membership, SessionStateRequest,
  SessionStateResponse, Applied, replied, panicked, register_rx_packet, register_tx_packet,
  append_pending, apply_payload, apply_entry, apply, push_reply, apply_next, start,
}
use yed_mq.Raft.SessionState.Safety.{Room, Sound, with_storage-Sound}
use yed_mq.Raft.SessionState.Safety.Commands.{AppliedSound, request-Sound}
use yed_mq.Raft.SessionState.Safety.Growth.{AppliedGrows, request-Grows}

-- A storage on which at most `n` operations ran.
abbrev Bounded : ℕ → SessionStateStorage → Type 0
Bounded n s = (k : Text) → ref_of k s ≤ n

-- Every packet is counted as often as it is used, and no count is above `n`.
record Kept (n : ℕ) (sm : StateMachine) : Type 0 where
  covers : Covers sm.storage
  bounded : Bounded n sm.storage

abbrev max_entries : ℕ
max_entries = 2 ^ 64 - 1

Room-Bounded :
    (s : SessionStateStorage) (request : SessionStateRequest) (n : ℕ)
    → n < max_entries
    → Bounded n s
    → Room s request
Room-Bounded s (register_rx_packet tenant client id qos key) n h b = omega (arith, b key)
Room-Bounded s (register_tx_packet tenant client id qos key deferred) n h b = omega (arith, b key)
Room-Bounded s (append_pending tenant client key) n h b = omega (arith, b key)
Room-Bounded s _ n h b = tt

abbrev AppliedKept : StateMachine → ℕ → ℕ → Applied → Type 0
AppliedKept sm index n panicked = Unit {0}
AppliedKept sm index n (replied sm' reply) = Sound sm index sm' × Kept (suc n) sm'

kept_of :
    (sm : StateMachine) (index n : ℕ) (a : Applied)
    → Bounded n sm.storage
    → AppliedSound sm index a
    → AppliedGrows sm.storage a
    → AppliedKept sm index n a
kept_of sm index n panicked b s g = tt
kept_of sm index n (replied sm' reply) b s g =
    (s, record { covers = s.covers; bounded = λ k. omega (arith, b k, g k) })

abbrev Outcome : ℕ → List Entry → Option (StateMachine × List SessionStateResponse) → Type 0
Outcome m es none = Unit {0}
Outcome m es (some (final, replies)) = Kept m final × (length replies ≡ length es)

push-Outcome :
    (m : ℕ) (e : Entry) (es : List Entry) (reply : SessionStateResponse)
    (r : Option (StateMachine × List SessionStateResponse))
    → Outcome m es r
    → Outcome m (e ∷ es) (push_reply reply r)
push-Outcome m e es reply none o = tt
push-Outcome m e es reply (some (final, replies)) o = (o.0, ap suc o.1)

next-Outcome :
    (sm : StateMachine) (index n m : ℕ) (e : Entry) (es : List Entry) (a : Applied)
    (rest : StateMachine → Option (StateMachine × List SessionStateResponse))
    → AppliedKept sm index n a
    → ((sm' : StateMachine) → Kept (suc n) sm' → Outcome m es (rest sm'))
    → Outcome m (e ∷ es) (apply_next a rest)
next-Outcome sm index n m e es panicked rest k h = tt
next-Outcome sm index n m e es (replied sm' reply) rest k h =
    push-Outcome m e es reply (rest sm') (h sm' k.1)

start-Kept : Kept 0 start
unfolding start lookup
start-Kept = record { covers = λ k. omega arith; bounded = λ k. omega arith }

module _ (payload_store : Text → Option (List ℕ)) where
  payload-Kept :
      (sm : StateMachine) (index now n : ℕ) (p : EntryPayload)
      → n < max_entries
      → Kept n sm
      → AppliedKept sm index n (apply_payload payload_store sm index now p)
  unfolding apply_payload
  payload-Kept sm index now n blank h kept = (
    with_storage-Sound sm sm.storage index kept.covers,
    record { covers = kept.covers; bounded = λ k. omega (arith, kept.bounded k) },
  )
  payload-Kept sm index now n (normal request) h kept =
      kept_of sm index n _ kept.bounded
        (request-Sound payload_store sm index now request kept.covers
          (Room-Bounded sm.storage request n h kept.bounded))
        (request-Grows payload_store sm index now request)
  payload-Kept sm index now n (membership m) h kept =
      let s = with_storage-Sound sm sm.storage index kept.covers in
      (
        record { covers = s.covers; added = s.added; queue = s.queue; deletable = s.deletable },
        record { covers = kept.covers; bounded = λ k. omega (arith, kept.bounded k) },
      )

  entry-Kept :
      (sm : StateMachine) (e : Entry) (n : ℕ)
      → n < max_entries
      → Kept n sm
      → AppliedKept
          (record sm { last_applied = some e.index })
          e.index
          n
          (apply_entry payload_store sm e)
  unfolding apply_entry
  entry-Kept sm e n h kept =
      payload-Kept (record sm { last_applied = some e.index }) e.index e.now n e.payload h
        (record { covers = kept.covers; bounded = kept.bounded })

  log-Kept :
      (es : List Entry) (sm : StateMachine) (n m : ℕ)
      → n + length es ≡ m
      → m ≤ max_entries
      → Kept n sm
      → Outcome m es (apply payload_store sm es)
  unfolding apply
  log-Kept [] sm n m eq h kept =
      (record { covers = kept.covers; bounded = λ k. omega (arith, kept.bounded k) }, refl)
  log-Kept (e ∷ es) sm n m eq h kept =
      next-Outcome (record sm { last_applied = some e.index }) e.index n m e es
        (apply_entry payload_store sm e) (λ sm'. apply payload_store sm' es)
        (entry-Kept sm e n (omega arith) kept)
        (λ sm' kept'. log-Kept es sm' (suc n) m (omega arith) h kept')

  -- A log of less than 2^64 entries, from the first on: each entry is answered, and in the end every
  -- packet is counted at least as often as the sessions use it.
  pub log-Covers :
      (es : List Entry) {final : StateMachine} {replies : List SessionStateResponse}
      → length es < 2 ^ 64
      → apply payload_store start es ≡ some (final, replies)
      → Covers final.storage × (length replies ≡ length es)
  log-Covers es h r =
      let (kept, n) =
        subst (Outcome (length es) es) r
          (log-Kept es start 0 (length es) (omega arith) (omega arith) start-Kept) in
      (kept.covers, n)

  -- Whenever an entry is applied after a log from the first entry on, less than 2^64 entries with this
  -- one, the payloads that it puts up for deletion are those of packets that no session uses then,
  -- they are to be deleted once the log is purged up to this entry, and the entries of the queue
  -- before stay; every packet stays counted.
  pub deletion_safe :
      (before : List Entry) (e : Entry) {sm sm' : StateMachine}
      {replies : List SessionStateResponse} {reply : SessionStateResponse}
      → length before + 1 < 2 ^ 64
      → apply payload_store start before ≡ some (sm, replies)
      → apply_entry payload_store sm e ≡ replied sm' reply
      → Sound sm e.index sm'
  deletion_safe before e {sm} {sm'} h r q =
      let (kept, n) =
        subst (Outcome (length before) before) r
          (log-Kept before start 0 (length before) (omega arith) (omega arith) start-Kept) in
      let (s, k) =
        subst (AppliedKept (record sm { last_applied = some e.index }) e.index (length before)) q
          (entry-Kept sm e (length before) (omega arith) kept) in
      record { covers = s.covers; added = s.added; queue = s.queue; deletable = s.deletable }
