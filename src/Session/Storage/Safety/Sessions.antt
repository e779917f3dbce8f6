-- ===== src/Session/Storage/Safety/Sessions.antt =====
-- broker/src/session/session_state_storage.rs: creating and deleting sessions, the message queue and
-- the remaining operations keep every used packet counted.
use yed_mq.Base.{
  ℕ, ◌+◌, ◌≡◌, refl, ap, ◌∙◌, Option, none, some, List, [], ◌∷◌, ◌++◌, arith, Text, lookup, insert,
  count, count-append, total, measure, total-insert, nat_eq, text_eq_instance, Option-cases, inl,
  inr,
}
use yed_mq.Inflight.{
  Inflight, InflightError, InflightItem, item_keys, get_all_packet_keys, register_with_rx_packet,
  register_with_tx_packet, discard_unsent, next_state, clean_finished_items,
}
use yed_mq.Inflight.Keys.{held, hits}
use yed_mq.Inflight
use yed_mq.Session.State.{SessionState, ProtocolVersion, new_with_options}
use yed_mq.Session.Storage.{
  SessionStateStorage, inc_ref, ensure_tenant, get_session_state, write_session, remove_in,
  create_session_state, delete_found, delete_session_state,
}
use yed_mq.Session.Storage.Counts.{
  uses, ref_of-inc, used-write, ref_of-write, ref_of-ensure, used-remove-le, ref_of-remove,
}
use yed_mq.Session.Storage.Safety.{
  Covers, HasRoom, Releases, ReleasesAll, dec_opt-Releases, dec_all-Releases, ensure-Covers,
  used-inc, find-inc,
}
use yed_mq.Session.Storage.Queue.{
  append_into, append_to_pending_queue, pop_last, pop_into, pop_from_pending_queue,
}
use yed_mq.Session.Storage.Updates.{modify_into}
use yed_mq.Session.Storage.Safety.Packets.{write-Covers}

uses-new :
    (k : Text) (duration : ℕ) (v : Option ProtocolVersion) (interval : Option ℕ)
    → uses k (new_with_options duration v interval) ≡ 0
unfolding new_with_options
uses-new k duration v interval = unfold Inflight.new in refl

-- A new session, also in place of an old one under the same name.
pub create-Covers :
    (s : SessionStateStorage) (tenant session : Text) (duration : ℕ) (v : Option ProtocolVersion)
    (interval : Option ℕ)
    → Covers s
    → Covers (create_session_state s tenant session duration v interval)
unfolding create_session_state
create-Covers s tenant session duration v interval c k =
    elim (Option-cases (lookup tenant s.inner)) [
      | inl n ↦ rw n (
          omega (
            arith,
            c k,
            total-insert (total (uses k)) tenant (insert session fresh []) s.inner,
            ap (measure (total (uses k))) n,
            total-insert (uses k) session fresh [],
            uses-new k duration v interval,
          ))
      | inr (m, n) ↦ rw n (
          omega (
            arith,
            c k,
            total-insert (total (uses k)) tenant (insert session fresh m) s.inner,
            ap (measure (total (uses k))) n,
            total-insert (uses k) session fresh m,
            uses-new k duration v interval,
          ))
    ]
  where
    fresh : SessionState
    fresh = new_with_options duration v interval

delete_found-Releases :
    (s : SessionStateStorage) (tenant session : Text) (o : Option SessionState)
    → Covers s
    → get_session_state s tenant session ≡ o
    → let r = delete_found s tenant session o in ReleasesAll r.0 r.1
unfolding delete_found
delete_found-Releases s tenant session none c e = (c, tt)
delete_found-Releases s tenant session (some state) c e =
    dec_all-Releases (remove_in (lookup tenant s.inner) s tenant session)
      (state.pending_messages ++ get_all_packet_keys state.inflight)
      λ k. omega (
        arith,
        c k,
        used-remove-le k s tenant session state e,
        ref_of-remove k s tenant session,
        count-append k state.pending_messages (get_all_packet_keys state.inflight),
        keys-held k state.inflight,
      )
  where
    keys-held : (k : Text) (fl : Inflight) → count k (get_all_packet_keys fl) ≡ held k fl
    keys-held k fl = unfold get_all_packet_keys in refl

-- A deleted session.
pub delete-Releases :
    (s : SessionStateStorage) (tenant session : Text)
    → Covers s
    → let r = delete_session_state s tenant session in ReleasesAll r.0 r.1
unfolding delete_session_state
delete-Releases s tenant session c = delete_found-Releases s tenant session _ c refl

append_into-Covers :
    (s : SessionStateStorage) (tenant client key : Text) (o : Option SessionState)
    → Covers s
    → HasRoom key s
    → get_session_state s tenant client ≡ o
    → Covers (append_into s tenant client key o)
unfolding append_into
append_into-Covers s tenant client key none c room e = c
append_into-Covers s tenant client key (some state) c room e =
    let state' : SessionState = record state {
      pending_messages = state.pending_messages ++ (key ∷ []);
    } in
    let e' : get_session_state (inc_ref s key) tenant client ≡ some state =
      find-inc s key tenant client ∙ e in
    λ k. omega (
      arith,
      c k,
      ref_of-inc k s key room,
      used-inc k s key,
      used-write k (inc_ref s key) tenant client state state' e',
      ref_of-write k (inc_ref s key) tenant client state',
      count-append k state.pending_messages (key ∷ []),
    )

-- A message for a session that is offline.
pub append-Covers :
    (s : SessionStateStorage) (tenant client key : Text)
    → Covers s
    → HasRoom key s
    → Covers (append_to_pending_queue s tenant client key)
unfolding append_to_pending_queue
append-Covers s tenant client key c room =
    append_into-Covers (ensure_tenant s tenant) tenant client key _ (ensure-Covers s tenant c)
      (omega (arith, ref_of-ensure key s tenant)) refl

count-pop_last :
    (k : Text) (keys : List Text)
    → count k (pop_last keys).0 + hits k (pop_last keys).1 ≡ count k keys
unfolding pop_last
count-pop_last k [] = refl
count-pop_last k (key ∷ []) = omega arith
count-pop_last k (key ∷ next ∷ keys) = omega (arith, count-pop_last k (next ∷ keys))

pop_into-Releases :
    (s : SessionStateStorage) (tenant client : Text) (o : Option SessionState)
    → Covers s
    → get_session_state s tenant client ≡ o
    → let r = pop_into s tenant client o in Releases r.0 r.2
unfolding pop_into
pop_into-Releases s tenant client none c e = (c, λ k f. cc)
pop_into-Releases s tenant client (some state) c e =
    let r = pop_last state.pending_messages in
    let state' : SessionState = record state { pending_messages = r.0 } in
    dec_opt-Releases (write_session s tenant client state') r.1 λ k. omega (
      arith,
      c k,
      used-write k s tenant client state state' e,
      ref_of-write k s tenant client state',
      count-pop_last k state.pending_messages,
    )

-- A message that is taken from the queue.
pub pop-Releases :
    (s : SessionStateStorage) (tenant client : Text)
    → Covers s
    → let r = pop_from_pending_queue s tenant client in Releases r.0 r.2
unfolding pop_from_pending_queue
pop-Releases s tenant client c = pop_into-Releases s tenant client _ c refl

-- A change that touches no message and no packet.
pub modify-Covers :
    (s : SessionStateStorage) (tenant client : Text) (f : SessionState → SessionState)
    → ((k : Text) (state : SessionState) → uses k (f state) ≡ uses k state)
    → Covers s
    → Covers (modify_into s tenant client f (get_session_state s tenant client))
modify-Covers s tenant client f same c = go (get_session_state s tenant client) refl
  where
    go :
        (o : Option SessionState)
        → get_session_state s tenant client ≡ o
        → Covers (modify_into s tenant client f o)
    go none e = c
    go (some state) e = write-Covers s tenant client state (f state) c e (λ k. same k state)
