-- ===== src/Raft/SessionActorMap/Owners.antt =====
-- broker/src/raft/session_actor_map/store.rs: the state machine implements an abstract one that keeps,
-- for each client, the owning node and the index of its registration, and knows no clock and no lease.
use yed_mq.Base.{
  ℕ, ◌≡◌, refl, ap, ◌∙◌, ◌&&◌, Option, none, some, List, [], ◌∷◌, if◌then◌else◌, Text,
}
use yed_mq.Session.ActorMap.{
  SessionActorMapStorage, ExpiredSession, SessionInstanceId, unregister_session_actor,
}
use yed_mq.Session.ActorMap.Slots.{is_client}
use yed_mq.Session.ActorMap.Leases.{owner, holds, owner-register, owner-unregister, owner-renew}
use yed_mq.Raft.SessionActorMap.{
  SessionActorMapRequest, EntryPayload, Entry, StateMachine, register_session, unregister_session,
  clean_expired_sessions, session_lease_renew_request, blank, normal, membership, clean_sessions,
  apply_request, apply_payload, apply_entry, apply,
}

-- One client's owner: a registration takes it, and only a command that names the owner's registration
-- releases it.
module _ (t c : Text) where
  abbrev pub release : Text → Text → SessionInstanceId → Option (ℕ × ℕ) → Option (ℕ × ℕ)
  release tenant client id o = if is_client tenant client t c && holds o id then none else o

  abbrev pub release_all : List ExpiredSession → Option (ℕ × ℕ) → Option (ℕ × ℕ)
  release_all [] o = o
  release_all (x ∷ xs) o = release_all xs (release x.tenant_id x.session_id x.session_instance_id o)

  abbrev pub own_request : ℕ → SessionActorMapRequest → Option (ℕ × ℕ) → Option (ℕ × ℕ)
  own_request index (register_session tenant client node) o =
      if is_client tenant client t c then some (node, index) else o
  own_request index (unregister_session tenant client id) o = release tenant client id o
  own_request index (clean_expired_sessions sessions) o = release_all sessions o
  own_request index (session_lease_renew_request sessions) o = o

  abbrev pub own_payload : ℕ → EntryPayload → Option (ℕ × ℕ) → Option (ℕ × ℕ)
  own_payload index blank o = o
  own_payload index (normal request) o = own_request index request o
  own_payload index (membership m) o = o

  abbrev pub own_run : List Entry → Option (ℕ × ℕ) → Option (ℕ × ℕ)
  own_run [] o = o
  own_run (e ∷ es) o = own_run es (own_payload e.index e.payload o)

  owner-clean :
      (node_id ttl : ℕ) (xs : List ExpiredSession) (s : SessionActorMapStorage)
      → owner (clean_sessions node_id ttl s xs).0 t c ≡ release_all xs (owner s t c)
  unfolding clean_sessions
  owner-clean node_id ttl [] s = refl
  owner-clean node_id ttl (x ∷ xs) s =
      owner-clean node_id ttl xs
        (unregister_session_actor s x.tenant_id x.session_id x.session_instance_id)
      ∙ ap (release_all xs) (owner-unregister s x.tenant_id x.session_id x.session_instance_id t c)

  owner-request :
      (node_id ttl : ℕ) (s : SessionActorMapStorage) (index now : ℕ)
      (request : SessionActorMapRequest)
      → owner (apply_request node_id ttl s index now request).0 t c
        ≡ own_request index request (owner s t c)
  unfolding apply_request
  owner-request node_id ttl s index now (register_session tenant client node) =
      owner-register s tenant client node (record { log_index = index }) ttl now t c
  owner-request node_id ttl s index now (unregister_session tenant client id) =
      owner-unregister s tenant client id t c
  owner-request node_id ttl s index now (clean_expired_sessions xs) = owner-clean node_id ttl xs s
  owner-request node_id ttl s index now (session_lease_renew_request rs) =
      owner-renew rs s ttl now t c

  owner-entry :
      (node_id ttl : ℕ) (sm : StateMachine) (index now : ℕ) (p : EntryPayload)
      → owner (apply_payload node_id ttl sm index now p).0.session_actor_map t c
        ≡ own_payload index p (owner sm.session_actor_map t c)
  unfolding apply_payload
  owner-entry node_id ttl sm index now blank = refl
  owner-entry node_id ttl sm index now (normal request) =
      owner-request node_id ttl sm.session_actor_map index now request
  owner-entry node_id ttl sm index now (membership m) = refl

  -- After any log, the owner of each client is the one of the abstract machine, whatever node applies
  -- the log, whatever its clock and the length of a lease.
  pub owner-apply :
      (node_id ttl : ℕ) (es : List Entry) (sm : StateMachine)
      → owner (apply node_id ttl sm es).0.session_actor_map t c
        ≡ own_run es (owner sm.session_actor_map t c)
  unfolding apply apply_entry
  owner-apply node_id ttl [] sm = refl
  owner-apply node_id ttl (e ∷ es) sm =
      let sm0 = record sm { last_applied = some e.index } in
      owner-apply node_id ttl es (apply_payload node_id ttl sm0 e.index e.now e.payload).0
      ∙ ap (own_run es) (owner-entry node_id ttl sm0 e.index e.now e.payload)
