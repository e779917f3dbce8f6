-- ===== src/Session/Storage/Queue.antt =====
-- broker/src/session/session_state_storage.rs: the queue of messages for a session that is offline.
use yed_mq.Base.{Option, none, some, List, [], ◌∷◌, ◌++◌, Text, text_eq_instance}
use yed_mq.Session.State.{SessionState}
use yed_mq.Session.Storage.{
  SessionStateStorage, inc_ref, ensure_tenant, get_session_state, write_session, dec_opt,
}

-- `Vec::push` adds at the end.
unfoldable pub append_into :
    SessionStateStorage → Text → Text → Text → Option SessionState → SessionStateStorage
append_into s tenant client key none = s
append_into s tenant client key (some state) =
    write_session (inc_ref s key) tenant client
      (record state { pending_messages = state.pending_messages ++ (key ∷ []) })

unfoldable pub append_to_pending_queue :
    SessionStateStorage → Text → Text → Text → SessionStateStorage
unfolding append_into
append_to_pending_queue s tenant client key =
    let s' = ensure_tenant s tenant in
    append_into s' tenant client key (get_session_state s' tenant client)

-- `Vec::pop` takes the last element: what is left, and the element.
unfoldable pub pop_last : List Text → List Text × Option Text
pop_last [] = ([], none)
pop_last (key ∷ []) = ([], some key)
pop_last (key ∷ next ∷ keys) = let (rest, last) = pop_last (next ∷ keys) in (key ∷ rest, last)

unfoldable pub pop_into :
    SessionStateStorage
    → Text
    → Text
    → Option SessionState
    → SessionStateStorage × Option Text × Option Text
pop_into s tenant client none = (s, none, none)
pop_into s tenant client (some state) =
    let (rest, key) = pop_last state.pending_messages in
    let (s', freed) =
      dec_opt (write_session s tenant client (record state { pending_messages = rest })) key in
    (s', key, freed)

unfoldable pub pop_from_pending_queue :
    SessionStateStorage → Text → Text → SessionStateStorage × Option Text × Option Text
unfolding pop_into
pop_from_pending_queue s tenant client =
    pop_into s tenant client (get_session_state s tenant client)
