-- ===== src/Raft/SessionActorMap/Tests.antt =====
-- broker/src/raft/session_actor_map/store.rs on a concrete log.
use yed_mq.Base.{ℕ, ◌≡◌, refl, some, List, [], ◌∷◌, arith, Text, if◌then◌else◌, ◌==◌}
use yed_mq.Session.ActorMap.{SessionActorMapEntry, SessionInstanceId}
use yed_mq.Session.ActorMap.Leases.{owner}
use yed_mq.Raft.SessionActorMap.{
  StateMachine, Entry, normal, register_session, unregister_session, session_lease_renew_request,
  apply, apply_request, force_stop,
}
use yed_mq.Raft.SessionActorMap.Owners.{own_run, owner-apply}
use yed_mq.Raft.SessionActorMap.Fencing.{fencing, replicas_agree, handover}

abbrev acme : Text
acme = b't' ∷ []

abbrev alice : Text
alice = b'c' ∷ []

abbrev instance_of : ℕ → SessionInstanceId
instance_of index = record { log_index = index }

abbrev entry_of : SessionActorMapEntry
entry_of = record { node_id = 2; instance_id = instance_of 5; expiration_timestamp = 1060 }

abbrev owned : StateMachine
owned = record {
  last_applied = some 5;
  last_membership = 0;
  session_actor_map = record { inner = (acme, (alice, entry_of) ∷ []) ∷ [] };
}

-- The earlier owner's registration, entry 4, is taken back, and its lease renewed.
abbrev late : ℕ → List Entry
late now =
    record {
      index = 6;
      now = now;
      payload = normal (unregister_session acme alice (instance_of 4));
    }
    ∷ record {
      index = 7;
      now = now;
      payload = normal (
          session_lease_renew_request (
            record { tenant_id = acme; session_id = alice; session_instance_id = instance_of 4 }
            ∷ []));
    }
    ∷ []

owner-apply_example :
    owner (apply 1 60 owned (late 1000)).0.session_actor_map acme alice
    ≡ own_run acme alice (late 1000) (owner owned.session_actor_map acme alice)
owner-apply_example = owner-apply acme alice 1 60 (late 1000) owned

fencing_example : owner (apply 1 60 owned (late 1000)).0.session_actor_map acme alice ≡ some (2, 5)
unfolding owner yed_mq.Session.ActorMap.get_session_actor_map yed_mq.Base.lookup yed_mq.Base.text_eq
fencing_example = fencing 1 60 (late 1000) owned acme alice 2 5 refl (refl, (tt, tt))

replicas_agree_example :
    owner (apply 1 60 owned (late 1000)).0.session_actor_map acme alice
    ≡ owner (apply 2 60 owned (late 9000)).0.session_actor_map acme alice
replicas_agree_example =
    replicas_agree 1 2 60 (late 1000) (late 9000) owned acme alice (refl, refl, (refl, refl, tt))

handover_example :
    let r = apply_request 2 60 owned.session_actor_map 8 1000 (register_session acme alice 3) in
    (owner r.0 acme alice ≡ some (3, 8))
    × (r.2 ≡ (if 2 == 2 then force_stop acme alice (instance_of 5) ∷ [] else []))
unfolding yed_mq.Session.ActorMap.get_session_actor_map yed_mq.Base.lookup yed_mq.Base.text_eq
handover_example =
    handover 2 60 owned.session_actor_map 8 1000 acme alice 3 entry_of refl
      (λ e. absurd (omega arith))
