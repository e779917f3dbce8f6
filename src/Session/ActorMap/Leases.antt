-- ===== src/Session/ActorMap/Leases.antt =====
-- broker/src/session/session_actor_map_storage.rs: what the renewal of leases does to the entries.
use yed_mq.Base.{
  ℕ, ◌≡◌, refl, sym, ap, ◌∙◌, Bool, false, Option, none, some, ◌==◌, ◌&&◌, List, [], ◌∷◌,
  if◌then◌else◌, Text, text_eq, Map, lookup, insert, lookup-insert, Bool-cases, inl, inr,
  text_eq_instance,
}
use yed_mq.Session.ActorMap.{
  SessionInstanceId, SessionActorMapEntry, SessionActorMapStorage, RenewSession, entry_in,
  or_default, get_session_actor_map, lease_end, renewed, renew_one, renew_tenant, renew_session,
  session_lease_renew, same_instance, register_session_actor, unregister_session_actor,
}
use yed_mq.Session.ActorMap.Slots.{
  is_client, owned_by, written_slot, client_entry, get-register, get-unregister, entry_in-default,
}

abbrev renew_entry :
    Option SessionActorMapEntry → SessionInstanceId → ℕ → Option SessionActorMapEntry
renew_entry none id expiration = none
renew_entry (some e) id expiration = some (renewed e id expiration)

module _ (s : SessionActorMapStorage) (r : RenewSession) (expiration : ℕ) (t c : Text) where
  abbrev AfterRenew : SessionActorMapStorage → Type 0
  AfterRenew s' = entry_in (lookup t s'.inner) c ≡ (
      if is_client r.tenant_id r.session_id t c
      then renew_entry (entry_in (lookup t s.inner) c) r.session_instance_id expiration
      else entry_in (lookup t s.inner) c)

  renew_session-AfterRenew :
      (m : Map Text SessionActorMapEntry) (o : Option SessionActorMapEntry)
      → lookup r.tenant_id s.inner ≡ some m
      → lookup r.session_id m ≡ o
      → AfterRenew (renew_session s r expiration m o)
  renew_session-AfterRenew m none e f = elim (Bool-cases (is_client r.tenant_id r.session_id t c)) [
    | inr g ↦ rw g
    | inl g ↦ rw (g, client_entry s.inner r.tenant_id r.session_id t c g, e, f)
  ]
  renew_session-AfterRenew m (some x) e f =
      let x' = renewed x r.session_instance_id expiration in
      let written =
        written_slot s.inner r.tenant_id r.session_id (insert r.session_id x' m) (some x') t c (λ j.
          lookup-insert r.session_id j x' m
          ∙ ap (λ o. if text_eq r.session_id j then some x' else entry_in o j) (sym e)) in
      elim (Bool-cases (is_client r.tenant_id r.session_id t c)) [
        | inr g ↦ rw (written, g)
        | inl g ↦ rw (written, g, client_entry s.inner r.tenant_id r.session_id t c g, e, f)
      ]

  renew_tenant-AfterRenew :
      (o : Option (Map Text SessionActorMapEntry))
      → lookup r.tenant_id s.inner ≡ o
      → AfterRenew (renew_tenant s r expiration o)
  renew_tenant-AfterRenew none e = elim (Bool-cases (is_client r.tenant_id r.session_id t c)) [
    | inr g ↦ rw g
    | inl g ↦ rw (g, client_entry s.inner r.tenant_id r.session_id t c g, e)
  ]
  renew_tenant-AfterRenew (some m) e = renew_session-AfterRenew m (lookup r.session_id m) e refl

  pub get-renew_one : get_session_actor_map (renew_one s r expiration) t c ≡ (
      if is_client r.tenant_id r.session_id t c
      then renew_entry (get_session_actor_map s t c) r.session_instance_id expiration
      else get_session_actor_map s t c)
  unfolding get_session_actor_map renew_one
  get-renew_one = renew_tenant-AfterRenew (lookup r.tenant_id s.inner) refl

-- The node that owns a session, and the index of its registration.
abbrev pub owner_of : Option SessionActorMapEntry → Option (ℕ × ℕ)
owner_of none = none
owner_of (some e) = some (e.node_id, e.instance_id.log_index)

unfoldable pub owner : SessionActorMapStorage → Text → Text → Option (ℕ × ℕ)
owner s t c = owner_of (get_session_actor_map s t c)

owner-renewed :
    (e : SessionActorMapEntry) (id : SessionInstanceId) (expiration : ℕ)
    → owner_of (some (renewed e id expiration)) ≡ owner_of (some e)
owner-renewed e id expiration = elim (Bool-cases (same_instance e.instance_id id)) [
  | inl h ↦ rw h
  | inr h ↦ rw h
]

owner-renew_entry :
    (o : Option SessionActorMapEntry) (id : SessionInstanceId) (expiration : ℕ)
    → owner_of (renew_entry o id expiration) ≡ owner_of o
owner-renew_entry none id expiration = refl
owner-renew_entry (some e) id expiration = owner-renewed e id expiration

owner-renew_one :
    (s : SessionActorMapStorage) (r : RenewSession) (expiration : ℕ) (t c : Text)
    → owner (renew_one s r expiration) t c ≡ owner s t c
unfolding owner
owner-renew_one s r expiration t c =
    ap owner_of (get-renew_one s r expiration t c)
    ∙ elim (Bool-cases (is_client r.tenant_id r.session_id t c)) [
      | inr h ↦ rw h
      | inl h ↦
          rw h (owner-renew_entry (get_session_actor_map s t c) r.session_instance_id expiration)
    ]

-- Renewals never change who owns a session.
pub owner-renew :
    (rs : List RenewSession) (s : SessionActorMapStorage) (ttl now : ℕ) (t c : Text)
    → owner (session_lease_renew s rs ttl now) t c ≡ owner s t c
unfolding session_lease_renew
owner-renew [] s ttl now t c = refl
owner-renew (r ∷ rs) s ttl now t c =
    owner-renew rs (renew_one s r (lease_end now ttl)) ttl now t c
    ∙ owner-renew_one s r (lease_end now ttl) t c

pub owner-register :
    (s : SessionActorMapStorage) (tenant client : Text) (node_id : ℕ) (id : SessionInstanceId)
    (ttl now : ℕ) (t c : Text)
    → owner (register_session_actor s tenant client node_id id ttl now).0 t c
      ≡ (if is_client tenant client t c then some (node_id, id.log_index) else owner s t c)
unfolding owner
owner-register s tenant client node_id id ttl now t c =
    ap owner_of (get-register s tenant client node_id id ttl now t c)
    ∙ elim (Bool-cases (is_client tenant client t c)) [ inl h ↦ rw h | inr h ↦ rw h ]

-- What a registration gives back is the entry before it.
pub previous_of :
    (s : SessionActorMapStorage) (tenant client : Text)
    → lookup client (or_default (lookup tenant s.inner)) ≡ get_session_actor_map s tenant client
unfolding get_session_actor_map
previous_of s tenant client = sym (entry_in-default (lookup tenant s.inner) client)

abbrev pub holds : Option (ℕ × ℕ) → SessionInstanceId → Bool
holds none id = false
holds (some (node, index)) id = index == id.log_index

owned-holds :
    (o : Option SessionActorMapEntry) (id : SessionInstanceId)
    → owned_by o id ≡ holds (owner_of o) id
owned-holds none id = refl
owned-holds (some e) id = refl

pub owner-unregister :
    (s : SessionActorMapStorage) (tenant client : Text) (id : SessionInstanceId) (t c : Text)
    → owner (unregister_session_actor s tenant client id) t c
      ≡ (if is_client tenant client t c && holds (owner s t c) id then none else owner s t c)
unfolding owner
owner-unregister s tenant client id t c =
    let b = is_client tenant client t c && owned_by (get_session_actor_map s t c) id in
    ap owner_of (get-unregister s tenant client id t c)
    ∙ elim (Bool-cases b) [ inl h ↦ rw h | inr h ↦ rw h ]
    ∙ ap
        (λ x.
          if is_client tenant client t c && x then none else owner_of (get_session_actor_map s t c))
        (owned-holds (get_session_actor_map s t c) id)
