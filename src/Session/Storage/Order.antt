-- ===== src/Session/Storage/Order.antt =====
-- broker/src/session/session_state_storage.rs: the order in which queued messages come back.
use yed_mq.Base.{
  ◌≡◌, refl, ap, ◌∙◌, Option, some, List, [], ◌∷◌, ◌++◌, arith, Text, lookup, lookup-insert, insert,
  text_eq_instance, Option-cases, inl, inr, beq_self,
}
use yed_mq.Session.State.{SessionState}
use yed_mq.Session.Storage.{
  SessionStateStorage, inc_ref, dec_opt, ensure_tenant, get_session_state, find_in, write_session,
}
use yed_mq.Session.Storage.Counts.{dec_opt-inner}
use yed_mq.Session.Storage.Queue.{append_to_pending_queue, pop_last, pop_from_pending_queue}

pop_last-append : (keys : List Text) (key : Text) → pop_last (keys ++ key ∷ []) ≡ (keys, some key)
unfolding pop_last
pop_last-append [] key = refl
pop_last-append (k ∷ []) key = refl
pop_last-append (k ∷ next ∷ keys) key = rw (pop_last-append (next ∷ keys) key)

pub find-write :
    (s : SessionStateStorage) (tenant client : Text) (old state : SessionState)
    → get_session_state s tenant client ≡ some old
    → get_session_state (write_session s tenant client state) tenant client ≡ some state
unfolding get_session_state write_session
find-write s tenant client old state e = elim (Option-cases (lookup tenant s.inner)) [
  | inl n ↦ cc (ap (λ o. find_in o client) n)
  | inr (m, n) ↦ rw n (
      ground (
        arith,
        lookup-insert tenant tenant (insert client state m) s.inner,
        lookup-insert client client state m,
        beq_self text_eq_instance tenant,
        beq_self text_eq_instance client,
      ))
]

find-ensure :
    (s : SessionStateStorage) (tenant client : Text) (state : SessionState)
    → get_session_state s tenant client ≡ some state
    → ensure_tenant s tenant ≡ s
unfolding get_session_state ensure_tenant
find-ensure s tenant client state e = elim (Option-cases (lookup tenant s.inner)) [
  | inl n ↦ cc (ap (λ o. find_in o client) n)
  | inr (m, n) ↦ rw n
]

abbrev queued : SessionState → Text → SessionState
queued state key = record state { pending_messages = state.pending_messages ++ key ∷ [] }

find-append :
    (s : SessionStateStorage) (tenant client key : Text) (state : SessionState)
    → get_session_state s tenant client ≡ some state
    → get_session_state (append_to_pending_queue s tenant client key) tenant client
      ≡ some (queued state key)
unfolding append_to_pending_queue
find-append s tenant client key state e =
    rw (find-ensure s tenant client state e, e)
      (find-write (inc_ref s key) tenant client state (queued state key)
        (unfold inc_ref get_session_state in e))

get-dec_opt :
    (s : SessionStateStorage) (o : Option Text) (tenant client : Text)
    → get_session_state (dec_opt s o).0 tenant client ≡ get_session_state s tenant client
unfolding get_session_state
get-dec_opt s o tenant client = ap (λ m. find_in (lookup tenant m) client) (dec_opt-inner s o)

-- The queue of a session gives back the newest message first: a message that is taken right after
-- one was added is that one, and the messages that waited before stay in the queue.
pub newest_first :
    (s : SessionStateStorage) (tenant client key : Text) (state : SessionState)
    → get_session_state s tenant client ≡ some state
    → let r = pop_from_pending_queue (append_to_pending_queue s tenant client key) tenant client in
      (r.1 ≡ some key) × (get_session_state r.0 tenant client ≡ some state)
unfolding pop_from_pending_queue
newest_first s tenant client key state e =
    let s1 = append_to_pending_queue s tenant client key in
    let found = find-append s tenant client key state e in
    let last = pop_last-append state.pending_messages key in
    rw (found, last)
      (
        refl,
        get-dec_opt (write_session s1 tenant client state) (some key) tenant client
            ∙ find-write s1 tenant client (queued state key) state found,
      )
