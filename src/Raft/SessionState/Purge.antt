-- ===== src/Raft/SessionState/Purge.antt =====
-- broker/src/raft/session_state/store.rs, `apply`: what a delete that names a moment of disconnection does
-- after the connection of the session has changed.
use yed_mq.Base.{
  ℕ, ◌≡◌, ◌≢◌, ◌↔◌, ◌⊎◌, refl, ap, ◌∙◌, true, Option, none, some, List, arith, Text, lookup, remove,
  lookup-insert, lookup-remove, beq_self, text_eq_instance, Bool-cases, Option-cases, inl, inr,
}
use yed_mq.Session.State.{SessionState}
use yed_mq.Session.State
use yed_mq.Session.Storage.{
  SessionStateStorage, get_session_state, find_in, remove_in, delete_session_state, drop_keys,
  delete_found,
}
use yed_mq.Session.Storage.Counts.{dec_all-inner}
use yed_mq.Session.Storage.Order.{find-write}
use yed_mq.Session.Storage.Updates.{update_connection_state}
use yed_mq.Raft.SessionState.{
  StateMachine, replied, no_response, update_connection, delete_state, should_delete, delete_if,
  with_storage, apply_request,
}
use yed_mq.Raft.SessionState.Safety.{schedule_all-storage}

find-update :
    (s : SessionStateStorage) (tenant client : Text) (state : SessionState)
    (moment interval : Option ℕ)
    → get_session_state s tenant client ≡ some state
    → get_session_state (update_connection_state s tenant client moment interval) tenant client
      ≡ some (State.update_connection_state state moment interval)
unfolding update_connection_state
find-update s tenant client state moment interval e =
    rw e (find-write s tenant client state (State.update_connection_state state moment interval) e)

find-remove :
    (s : SessionStateStorage) (tenant client : Text)
    → get_session_state (remove_in (lookup tenant s.inner) s tenant client) tenant client ≡ none
unfolding get_session_state
find-remove s tenant client = elim (Option-cases (lookup tenant s.inner)) [
  | inl n ↦ rw (n, n) refl
  | inr (m, n) ↦
      rw
        (
          n,
          lookup-insert tenant tenant (remove client m) s.inner,
          beq_self text_eq_instance tenant,
          lookup-remove client client m,
          beq_self text_eq_instance client,
        )
        refl
]

find-delete :
    (s : SessionStateStorage) (tenant client : Text) (state : SessionState)
    → get_session_state s tenant client ≡ some state
    → get_session_state (delete_session_state s tenant client).0 tenant client ≡ none
unfolding delete_session_state delete_found drop_keys
find-delete s tenant client state e =
    rw e (
      unfold get_session_state in
      ap (λ m. find_in (lookup tenant m) client)
        (dec_all-inner _ (remove_in (lookup tenant s.inner) s tenant client)))
    ∙ find-remove s tenant client

should_delete_iff :
    (state : SessionState) (at : ℕ)
    → (should_delete (some state) (some at) ≡ true) ↔ (state.disconnected_at ≡ some at)
unfolding should_delete
should_delete_iff state at = (λ e. ground arith, λ e. ground arith)

deletes :
    (sm : StateMachine) (index at : ℕ) (tenant client : Text) (state : SessionState)
    → get_session_state sm.storage tenant client ≡ some state
    → let sm' =
        delete_if sm index tenant client
          (should_delete (get_session_state sm.storage tenant client) (some at)) in
      ((state.disconnected_at ≡ some at) × (get_session_state sm'.storage tenant client ≡ none))
      ⊎ ((state.disconnected_at ≢ some at) × (sm' ≡ sm))
unfolding delete_if
deletes sm index at tenant client state e =
    let (s, freed) = delete_session_state sm.storage tenant client in
    elim (Bool-cases (should_delete (some state) (some at))) [
      | inl hit ↦ inl (
        (should_delete_iff state at).0 hit,
        ap
              (λ o.
                get_session_state
                  (delete_if sm index tenant client (should_delete o (some at))).storage tenant
                  client)
              e
            ∙ ap (λ b. get_session_state (delete_if sm index tenant client b).storage tenant client)
                hit
            ∙ ap (λ x. get_session_state x tenant client)
                (schedule_all-storage freed (with_storage sm s) index)
            ∙ find-delete sm.storage tenant client state e,
      )
      | inr miss ↦ inr (
        λ d. absurd (ground (arith, miss, (should_delete_iff state at).1 d)),
        ap (λ o. delete_if sm index tenant client (should_delete o (some at))) e
            ∙ ap (delete_if sm index tenant client) miss,
      )
    ]

module _ (payload_store : Text → Option (List ℕ)) where
  -- A session that is there is connected, or disconnected at some moment, and then a delete is applied
  -- that names a moment: both commands are answered, and the session is gone exactly where it is
  -- disconnected since the moment that is named. Otherwise the delete changes nothing, and the session
  -- is there as the first command left it.
  pub delete-update_connection :
      (sm : StateMachine) (index now index' now' at : ℕ) (tenant client : Text)
      (state : SessionState) (moment interval : Option ℕ)
      → get_session_state sm.storage tenant client ≡ some state
      → (sm' : StateMachine) × (sm'' : StateMachine) × (apply_request payload_store sm index now
            (update_connection tenant client moment interval)
          ≡ replied sm' no_response)
        × (apply_request payload_store sm' index' now' (delete_state tenant client (some at))
            ≡ replied sm'' no_response)
        × (((moment ≡ some at) × (get_session_state sm''.storage tenant client ≡ none))
            ⊎ ((moment ≢ some at)
                × (sm'' ≡ sm')
                × (get_session_state sm'.storage tenant client
                    ≡ some (State.update_connection_state state moment interval))))
  unfolding apply_request State.update_connection_state
  delete-update_connection sm index now index' now' at tenant client state moment interval e =
      let updated =
        with_storage sm (update_connection_state sm.storage tenant client moment interval) in
      let found = find-update sm.storage tenant client state moment interval e in
      (
        updated,
        _,
        refl,
        refl,
        elim (deletes updated index' at tenant client _ found) [
          | inl gone ↦ inl gone
          | inr stays ↦ inr (stays.0, stays.1, found)
        ],
      )
