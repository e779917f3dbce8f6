-- ===== src/Session/State.antt =====
-- broker/src/session/session_state_storage.rs, `SessionState`: what the cluster keeps of one session,
-- and when a disconnected session has expired.
pub mod Expiry
use yed_mq.Base.{
  ℕ, Bool, false, Option, none, some, List, [], leb, ltb, ◌==◌, if◌then◌else◌, Text, Map, u32_max,
  saturating_add, saturating_sub,
}
use yed_mq.Inflight.{Inflight}
pub use yed_mq.Mqtt.Packet.{ProtocolVersion, v5_0}
use yed_mq.Inflight

-- broker/src/session/session_actor.rs.
pub data QoS : Type 0 where
  at_most_once at_least_once exactly_once : QoS

pub record SubscriptionState : Type 0 where
  pub qos : QoS
  pub no_local : Bool
  pub retain_as_published : Bool

pub record SessionState : Type 0 where
  pub pending_messages : List Text
  pub inflight : Inflight
  pub subscriptions : Map Text SubscriptionState
  pub disconnected_at : Option ℕ
  pub protocol_version : Option ProtocolVersion
  pub session_expiry_interval : Option ℕ
  pub expires_at : Option ℕ

unfoldable pub new_with_options : ℕ → Option ProtocolVersion → Option ℕ → SessionState
new_with_options inflight_duration version interval = record {
  pending_messages = [];
  inflight = Inflight.new inflight_duration;
  subscriptions = [];
  disconnected_at = none;
  protocol_version = version;
  session_expiry_interval = interval;
  expires_at = none;
}

unfoldable pub new : ℕ → SessionState
unfolding new_with_options
new inflight_duration = new_with_options inflight_duration none none

-- An interval of `u32::MAX` means that the session never expires.
unfoldable pub expiry_deadline : ℕ → ℕ → Option ℕ
expiry_deadline disconnected_at interval =
    if interval == u32_max then none else some (saturating_add disconnected_at interval)

deadline_of : Option ℕ → Option ℕ → Option ℕ
unfolding expiry_deadline
deadline_of (some disconnected_at) (some interval) = expiry_deadline disconnected_at interval
deadline_of (some disconnected_at) none = none
deadline_of none interval = none

apply_interval : SessionState → Option ℕ → SessionState
apply_interval s none = s
apply_interval s (some interval) = record s {
  protocol_version = some v5_0;
  session_expiry_interval = some interval;
}

unfoldable pub update_connection_state : SessionState → Option ℕ → Option ℕ → SessionState
unfolding apply_interval deadline_of
update_connection_state s disconnected_at interval_update =
    let s' = apply_interval s interval_update in
    record s' {
      disconnected_at = disconnected_at;
      expires_at = deadline_of disconnected_at s'.session_expiry_interval;
    }

abbrev or_else : Option ℕ → ℕ → ℕ
or_else none d = d
or_else (some a) d = a

expired_since : SessionState → ℕ → ℕ → ℕ → Option ℕ → Option ℕ
expired_since s disconnected_at now legacy_ttl (some interval) =
    if interval == u32_max
    then none
    else if leb (or_else s.expires_at (saturating_add disconnected_at interval)) now
    then some disconnected_at
    else none
expired_since s disconnected_at now legacy_ttl none =
    if ltb legacy_ttl (saturating_sub now disconnected_at) then some disconnected_at else none

expired_of : SessionState → ℕ → ℕ → Option ℕ → Option ℕ
unfolding expired_since
expired_of s now legacy_ttl none = none
expired_of s now legacy_ttl (some disconnected_at) =
    expired_since s disconnected_at now legacy_ttl s.session_expiry_interval

unfoldable pub expired_disconnected_at : SessionState → ℕ → ℕ → Option ℕ
unfolding expired_of
expired_disconnected_at s now legacy_ttl = expired_of s now legacy_ttl s.disconnected_at
