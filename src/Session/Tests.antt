-- ===== src/Session/Tests.antt =====
-- broker/src/session/session_state_storage.rs on a concrete session.
use yed_mq.Base.{
  ◌≡◌, refl, inr, none, some, [], ◌∷◌, ◌==◌, arith, Text, leb, u32_max, saturating_add,
  if◌then◌else◌,
}
use yed_mq.Session.State.{SessionState, update_connection_state, expired_disconnected_at, v5_0}
use yed_mq.Session.State.Expiry.{expired-update_connection, expired_mono}
use yed_mq.Session.Storage.{SessionStateStorage, get_session_state}
use yed_mq.Session.Storage.Queue.{append_to_pending_queue, pop_from_pending_queue}
use yed_mq.Session.Storage.Order.{newest_first}

abbrev acme : Text
acme = b'a' ∷ []

abbrev alice : Text
alice = b'c' ∷ []

abbrev message : Text
message = b'm' ∷ []

abbrev fresh : SessionState
fresh = record {
  pending_messages = [];
  inflight = record { inner = []; expired_duration = 60 };
  subscriptions = [];
  disconnected_at = none;
  protocol_version = some v5_0;
  session_expiry_interval = some 30;
  expires_at = none;
}

abbrev left : SessionState
left = record fresh { disconnected_at = some 1000; expires_at = some 1030 }

abbrev stored : SessionStateStorage
stored = record { inner = (acme, (alice, fresh) ∷ []) ∷ []; ref_counts = [] }

expired-update_connection_example :
    expired_disconnected_at (update_connection_state fresh (some 1000) none) 1030 7200 ≡ (
      if 30 == u32_max then none else if leb (saturating_add 1000 30) 1030 then some 1000 else none)
expired-update_connection_example =
    expired-update_connection fresh 1000 none 30 1030 7200 (inr (refl, refl))

expired_mono_example :
    (expired_disconnected_at left 2000 7200 ≡ some 1000) × (left.disconnected_at ≡ some 1000)
unfolding expired_disconnected_at
expired_mono_example = expired_mono left 1030 2000 7200 1000 (omega arith) refl

newest_first_example :
    let r = pop_from_pending_queue (append_to_pending_queue stored acme alice message) acme alice in
    (r.1 ≡ some message) × (get_session_state r.0 acme alice ≡ some fresh)
unfolding get_session_state yed_mq.Base.lookup yed_mq.Base.text_eq
newest_first_example = newest_first stored acme alice message fresh refl
