-- ===== src/Raft/SessionActorMap/Fencing.antt =====
-- broker/src/raft/session_actor_map/store.rs: an owner is not evicted by what names an earlier one, nodes
-- agree on owners, and the node of the previous owner is told to stop it.
use yed_mq.Base.{
  ℕ, ◌≡◌, ◌≢◌, refl, sym, ap, ◌∙◌, false, ◌&&◌, ◌==◌, Option, some, List, [], ◌∷◌, if◌then◌else◌,
  arith, Text, All, beq_self, text_eq_instance,
}
use yed_mq.Session.ActorMap.{
  SessionActorMapStorage, SessionActorMapEntry, ExpiredSession, SessionInstanceId,
  get_session_actor_map, register_session_actor,
}
use yed_mq.Session.ActorMap.Slots.{is_client}
use yed_mq.Session.ActorMap.Leases.{owner, owner-register, previous_of}
use yed_mq.Raft.SessionActorMap.{
  SessionActorMapRequest, EntryPayload, Entry, StateMachine, register_session, unregister_session,
  clean_expired_sessions, session_lease_renew_request, blank, normal, membership, apply,
  apply_request, stop_previous, force_stop,
}
use yed_mq.Raft.SessionActorMap.Owners.{release_all, own_payload, own_run, owner-apply}

-- The entry neither registers this client nor releases its registration with this index.
module _ (t c : Text) (index : ℕ) where
  abbrev Other : Text → Text → SessionInstanceId → Type 0
  Other tenant client id = (is_client tenant client t c && (index == id.log_index)) ≡ false

  abbrev SparesRequest : SessionActorMapRequest → Type 0
  SparesRequest (register_session tenant client node) = is_client tenant client t c ≡ false
  SparesRequest (unregister_session tenant client id) = Other tenant client id
  SparesRequest (clean_expired_sessions xs) =
      All (λ x. Other x.tenant_id x.session_id x.session_instance_id) xs
  SparesRequest (session_lease_renew_request xs) = Unit {0}

  abbrev SparesPayload : EntryPayload → Type 0
  SparesPayload (normal request) = SparesRequest request
  SparesPayload _ = Unit {0}

  abbrev pub Spares : Entry → Type 0
  Spares e = SparesPayload e.payload

  release_all-Spares :
      (node : ℕ) (xs : List ExpiredSession)
      → All (λ x. Other x.tenant_id x.session_id x.session_instance_id) xs
      → release_all t c xs (some (node, index)) ≡ some (node, index)
  release_all-Spares node [] h = refl
  release_all-Spares node (x ∷ xs) h = rw h.0 (release_all-Spares node xs h.1)

  own_payload-Spares :
      (node i : ℕ) (p : EntryPayload)
      → SparesPayload p
      → own_payload t c i p (some (node, index)) ≡ some (node, index)
  own_payload-Spares node i blank h = refl
  own_payload-Spares node i (membership m) h = refl
  own_payload-Spares node i (normal (register_session tenant client n)) h = rw h
  own_payload-Spares node i (normal (unregister_session tenant client id)) h = rw h
  own_payload-Spares node i (normal (clean_expired_sessions xs)) h = release_all-Spares node xs h
  own_payload-Spares node i (normal (session_lease_renew_request xs)) h = refl

  own_run-Spares :
      (node : ℕ) (es : List Entry)
      → All Spares es
      → own_run t c es (some (node, index)) ≡ some (node, index)
  own_run-Spares node [] h = refl
  own_run-Spares node (e ∷ es) h =
      ap (own_run t c es) (own_payload-Spares node e.index e.payload h.0)
      ∙ own_run-Spares node es h.1

-- A registered session keeps its owner through every later entry that neither registers the client
-- again nor names this registration: renewals, clean-ups and unregistrations of earlier owners do
-- not evict it, on any node.
pub fencing :
    (node_id ttl : ℕ) (es : List Entry) (sm : StateMachine) (t c : Text) (node index : ℕ)
    → owner sm.session_actor_map t c ≡ some (node, index)
    → All (Spares t c index) es
    → owner (apply node_id ttl sm es).0.session_actor_map t c ≡ some (node, index)
fencing node_id ttl es sm t c node index o h =
    owner-apply t c node_id ttl es sm ∙ ap (own_run t c es) o ∙ own_run-Spares t c index node es h

-- The same commands under the same indices; the clocks may differ.
abbrev pub SameCommands : List Entry → List Entry → Type 0
SameCommands [] [] = Unit {0}
SameCommands (e ∷ es) (f ∷ fs) = (e.index ≡ f.index) × (e.payload ≡ f.payload) × SameCommands es fs
SameCommands _ _ = ⊥

own_run-SameCommands :
    (es fs : List Entry) (t c : Text) (o : Option (ℕ × ℕ))
    → SameCommands es fs
    → own_run t c es o ≡ own_run t c fs o
own_run-SameCommands [] [] t c o h = refl
own_run-SameCommands [] (f ∷ fs) t c o h = absurd h
own_run-SameCommands (e ∷ es) [] t c o h = absurd h
own_run-SameCommands (e ∷ es) (f ∷ fs) t c o h =
    rw (h.0, h.1) (own_run-SameCommands es fs t c (own_payload t c f.index f.payload o) h.2)

-- Two nodes that apply the same commands from one state agree on the owner of every client, although
-- each reads its own clock.
pub replicas_agree :
    (a b ttl : ℕ) (es fs : List Entry) (sm : StateMachine) (t c : Text)
    → SameCommands es fs
    → owner (apply a ttl sm es).0.session_actor_map t c
      ≡ owner (apply b ttl sm fs).0.session_actor_map t c
replicas_agree a b ttl es fs sm t c h =
    owner-apply t c a ttl es sm
    ∙ own_run-SameCommands es fs t c (owner sm.session_actor_map t c) h
    ∙ sym (owner-apply t c b ttl fs sm)

-- A registration hands the session over: it is the owner afterwards, and of all nodes exactly the node
-- of the previous owner is told to stop that one, where the previous registration is another entry.
pub handover :
    (node_id ttl : ℕ) (s : SessionActorMapStorage) (index now : ℕ) (t c : Text) (node : ℕ)
    (previous : SessionActorMapEntry)
    → get_session_actor_map s t c ≡ some previous
    → index ≢ previous.instance_id.log_index
    → let r = apply_request node_id ttl s index now (register_session t c node) in
      (owner r.0 t c ≡ some (node, index))
      × (r.2
          ≡ (if previous.node_id == node_id then force_stop t c previous.instance_id ∷ [] else []))
unfolding apply_request register_session_actor
handover node_id ttl s index now t c node previous g d = (
  owner-register s t c node (record { log_index = index }) ttl now t c
      ∙ rw (beq_self text_eq_instance t, beq_self text_eq_instance c) refl,
  ap (stop_previous node_id ttl t c (record { log_index = index })) (previous_of s t c ∙ g)
      ∙ ground (arith, d),
)
