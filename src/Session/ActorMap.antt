-- ===== src/Session/ActorMap.antt =====
-- broker/src/session/session_actor_map_storage.rs: which node owns the session of each client, under a
-- lease. A clock reading is an argument `now`.
pub mod Slots
pub mod Leases
use yed_mq.Base.{
  ℕ, ◌+◌, ◌%◌, ◌^◌, Bool, true, false, Option, none, some, List, [], ◌∷◌, ◌++◌, ltb, ◌==◌,
  if◌then◌else◌, Text, Map, lookup, insert, remove, text_eq_instance,
}

pub record SessionInstanceId : Type 0 where
  pub log_index : ℕ

pub record SessionActorMapEntry : Type 0 where
  pub node_id : ℕ
  pub instance_id : SessionInstanceId
  pub expiration_timestamp : ℕ

pub record SessionActorMapStorage : Type 0 where
  pub inner : Map Text (Map Text SessionActorMapEntry)

-- broker/src/raft/session_actor_map/types.rs.
pub record ExpiredSession : Type 0 where
  pub tenant_id : Text
  pub session_id : Text
  pub node_id : ℕ
  pub session_instance_id : SessionInstanceId

pub record RenewSession : Type 0 where
  pub tenant_id : Text
  pub session_id : Text
  pub session_instance_id : SessionInstanceId

unfoldable pub new : SessionActorMapStorage
new = record { inner = [] }

abbrev pub same_instance : SessionInstanceId → SessionInstanceId → Bool
same_instance a b = a.log_index == b.log_index

-- The end of a lease, a sum of two `u64`.
abbrev pub lease_end : ℕ → ℕ → ℕ
lease_end now session_ttl = (now + session_ttl) % 2 ^ 64

abbrev pub entry_in : Option (Map Text SessionActorMapEntry) → Text → Option SessionActorMapEntry
entry_in none session = none
entry_in (some m) session = lookup session m

unfoldable pub get_session_actor_map :
    SessionActorMapStorage → Text → Text → Option SessionActorMapEntry
get_session_actor_map s tenant client = entry_in (lookup tenant s.inner) client

abbrev pub renewed : SessionActorMapEntry → SessionInstanceId → ℕ → SessionActorMapEntry
renewed e id expiration =
    if same_instance e.instance_id id then record e { expiration_timestamp = expiration } else e

abbrev pub renew_session :
    SessionActorMapStorage
    → RenewSession
    → ℕ
    → Map Text SessionActorMapEntry
    → Option SessionActorMapEntry
    → SessionActorMapStorage
renew_session s r expiration m none = s
renew_session s r expiration m (some e) = record s {
  inner =
      insert r.tenant_id (insert r.session_id (renewed e r.session_instance_id expiration) m)
        s.inner;
}

abbrev pub renew_tenant :
    SessionActorMapStorage
    → RenewSession
    → ℕ
    → Option (Map Text SessionActorMapEntry)
    → SessionActorMapStorage
renew_tenant s r expiration none = s
renew_tenant s r expiration (some m) = renew_session s r expiration m (lookup r.session_id m)

unfoldable pub renew_one : SessionActorMapStorage → RenewSession → ℕ → SessionActorMapStorage
renew_one s r expiration = renew_tenant s r expiration (lookup r.tenant_id s.inner)

unfoldable pub session_lease_renew :
    SessionActorMapStorage → List RenewSession → ℕ → ℕ → SessionActorMapStorage
session_lease_renew s [] session_ttl now = s
session_lease_renew s (r ∷ rs) session_ttl now =
    session_lease_renew (renew_one s r (lease_end now session_ttl)) rs session_ttl now

abbrev expired_in : Text → ℕ → Map Text SessionActorMapEntry → List ExpiredSession
expired_in tenant now [] = []
expired_in tenant now ((session, e) ∷ m) =
    let rest = expired_in tenant now m in
    if ltb e.expiration_timestamp now
    then (record {
      tenant_id = tenant;
      session_id = session;
      node_id = e.node_id;
      session_instance_id = e.instance_id;
    })
      ∷ rest
    else rest

abbrev expired_tenants : ℕ → Map Text (Map Text SessionActorMapEntry) → List ExpiredSession
expired_tenants now [] = []
expired_tenants now ((tenant, m) ∷ ts) = expired_in tenant now m ++ expired_tenants now ts

unfoldable pub get_all_expired_sessions : SessionActorMapStorage → ℕ → List ExpiredSession
get_all_expired_sessions s now = expired_tenants now s.inner

-- `entry(tenant).or_default()`
abbrev pub or_default : Option (Map Text SessionActorMapEntry) → Map Text SessionActorMapEntry
or_default none = []
or_default (some m) = m

-- The entry of a new registration.
abbrev pub new_entry : ℕ → SessionInstanceId → ℕ → ℕ → SessionActorMapEntry
new_entry node_id instance_id session_ttl now = record {
  node_id = node_id;
  instance_id = instance_id;
  expiration_timestamp = lease_end now session_ttl;
}

unfoldable pub register_session_actor :
    SessionActorMapStorage
    → Text
    → Text
    → ℕ
    → SessionInstanceId
    → ℕ
    → ℕ
    → SessionActorMapStorage × Option SessionActorMapEntry
register_session_actor s tenant session node_id instance_id session_ttl now =
    let m = or_default (lookup tenant s.inner) in
    let e = new_entry node_id instance_id session_ttl now in
    (record s { inner = insert tenant (insert session e m) s.inner }, lookup session m)

abbrev pub unregister_session :
    SessionActorMapStorage
    → Text
    → Text
    → SessionInstanceId
    → Map Text SessionActorMapEntry
    → Option SessionActorMapEntry
    → SessionActorMapStorage
unregister_session s tenant session id m none = s
unregister_session s tenant session id m (some e) =
    if same_instance e.instance_id id
    then record s { inner = insert tenant (remove session m) s.inner }
    else s

abbrev pub unregister_tenant :
    SessionActorMapStorage
    → Text
    → Text
    → SessionInstanceId
    → Option (Map Text SessionActorMapEntry)
    → SessionActorMapStorage
unregister_tenant s tenant session id none = s
unregister_tenant s tenant session id (some m) =
    unregister_session s tenant session id m (lookup session m)

unfoldable pub unregister_session_actor :
    SessionActorMapStorage → Text → Text → SessionInstanceId → SessionActorMapStorage
unregister_session_actor s tenant session id =
    unregister_tenant s tenant session id (lookup tenant s.inner)
