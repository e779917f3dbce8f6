-- ===== src/Session/ActorMap/Slots.antt =====
-- broker/src/session/session_actor_map_storage.rs: what each operation does to the entry of each client.
use yed_mq.Base.{
  ℕ, ◌≡◌, refl, sym, ap, ◌∙◌, Bool, true, false, ◌&&◌, Option, none, some, arith, if◌then◌else◌,
  Text, text_eq, text_eq_iff, Map, lookup, insert, remove, lookup-insert, lookup-remove, Bool-cases,
  inl, inr, text_eq_instance,
}
use yed_mq.Session.ActorMap.{
  SessionInstanceId, SessionActorMapEntry, SessionActorMapStorage, same_instance, entry_in,
  or_default, new_entry, unregister_session, unregister_tenant, get_session_actor_map,
  register_session_actor, unregister_session_actor,
}

-- The client of a command is this client.
abbrev pub is_client : Text → Text → Text → Text → Bool
is_client tenant client t c = text_eq tenant t && text_eq client c

abbrev pub owned_by : Option SessionActorMapEntry → SessionInstanceId → Bool
owned_by none id = false
owned_by (some e) id = same_instance e.instance_id id

pub entry_in-default :
    (o : Option (Map Text SessionActorMapEntry)) (c : Text) → entry_in o c ≡ lookup c (or_default o)
entry_in-default none c = unfold lookup in refl
entry_in-default (some m) c = refl

-- A tenant's map is written back with one client's entry changed.
pub written_slot :
    (inner : Map Text (Map Text SessionActorMapEntry)) (tenant client : Text)
    (m : Map Text SessionActorMapEntry) (v : Option SessionActorMapEntry) (t c : Text)
    → ((j : Text) → lookup j m ≡ (if text_eq client j then v else entry_in (lookup tenant inner) j))
    → entry_in (lookup t (insert tenant m inner)) c
      ≡ (if is_client tenant client t c then v else entry_in (lookup t inner) c)
written_slot inner tenant client m v t c h = elim (Bool-cases (text_eq tenant t)) [
  | inl e ↦
      let same = (text_eq_iff tenant t).0 e in
      rw (lookup-insert tenant t m inner, e)
        (h c ∙ ap (λ x. if text_eq client c then v else entry_in (lookup x inner) c) same)
  | inr e ↦ rw (lookup-insert tenant t m inner, e)
]

pub get-register :
    (s : SessionActorMapStorage) (tenant client : Text) (node_id : ℕ) (id : SessionInstanceId)
    (ttl now : ℕ) (t c : Text)
    → get_session_actor_map (register_session_actor s tenant client node_id id ttl now).0 t c ≡ (
        if is_client tenant client t c
        then some (new_entry node_id id ttl now)
        else get_session_actor_map s t c)
unfolding get_session_actor_map register_session_actor
get-register s tenant client node_id id ttl now t c =
    let m = or_default (lookup tenant s.inner) in
    let e = new_entry node_id id ttl now in
    written_slot s.inner tenant client (insert client e m) (some e) t c (λ j.
      lookup-insert client j e m
      ∙ ap (λ o. if text_eq client j then some e else o)
          (sym (entry_in-default (lookup tenant s.inner) j)))

pub client_entry :
    (inner : Map Text (Map Text SessionActorMapEntry)) (tenant client t c : Text)
    → is_client tenant client t c ≡ true
    → entry_in (lookup t inner) c ≡ entry_in (lookup tenant inner) client
client_entry inner tenant client t c h =
    let te = (text_eq_iff tenant t).0 (ground arith) in
    let ce = (text_eq_iff client c).0 (ground arith) in
    sym (ap (λ x. entry_in (lookup x inner) client) te ∙ ap (entry_in (lookup t inner)) ce)

module _ (s : SessionActorMapStorage) (tenant client : Text) (id : SessionInstanceId)
    (t c : Text) where
  -- The entry after the call, for the look-ups that the call makes.
  abbrev AfterUnregister : SessionActorMapStorage → Type 0
  AfterUnregister s' = entry_in (lookup t s'.inner) c ≡ (
      if is_client tenant client t c && owned_by (entry_in (lookup t s.inner) c) id
      then none
      else entry_in (lookup t s.inner) c)

  unregister_session-AfterUnregister :
      (m : Map Text SessionActorMapEntry) (o : Option SessionActorMapEntry)
      → lookup tenant s.inner ≡ some m
      → lookup client m ≡ o
      → AfterUnregister (unregister_session s tenant client id m o)
  unregister_session-AfterUnregister m none e f = elim (Bool-cases (is_client tenant client t c)) [
    | inr g ↦ rw g
    | inl g ↦ rw (g, client_entry s.inner tenant client t c g, e, f)
  ]
  unregister_session-AfterUnregister m (some x) e f =
      elim (Bool-cases (same_instance x.instance_id id)) [
        | inr h ↦ elim (Bool-cases (is_client tenant client t c)) [
          | inr g ↦ rw (h, g)
          | inl g ↦ rw (h, g, client_entry s.inner tenant client t c g, e, f, h)
        ]
        | inl h ↦
            let written = written_slot s.inner tenant client (remove client m) none t c (λ j.
              lookup-remove client j m
              ∙ ap (λ o. if text_eq client j then none else entry_in o j) (sym e)) in
            elim (Bool-cases (is_client tenant client t c)) [
              | inr g ↦ rw (h, written, g)
              | inl g ↦ rw (h, written, g, client_entry s.inner tenant client t c g, e, f, h)
            ]
      ]

  unregister_tenant-AfterUnregister :
      (o : Option (Map Text SessionActorMapEntry))
      → lookup tenant s.inner ≡ o
      → AfterUnregister (unregister_tenant s tenant client id o)
  unregister_tenant-AfterUnregister none e = elim (Bool-cases (is_client tenant client t c)) [
    | inr g ↦ rw g
    | inl g ↦ rw (g, client_entry s.inner tenant client t c g, e)
  ]
  unregister_tenant-AfterUnregister (some m) e =
      unregister_session-AfterUnregister m (lookup client m) e refl

  pub get-unregister : get_session_actor_map (unregister_session_actor s tenant client id) t c ≡ (
      if is_client tenant client t c && owned_by (get_session_actor_map s t c) id
      then none
      else get_session_actor_map s t c)
  unfolding get_session_actor_map unregister_session_actor
  get-unregister = unregister_tenant-AfterUnregister (lookup tenant s.inner) refl
