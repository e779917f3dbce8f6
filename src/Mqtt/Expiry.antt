-- ===== src/Mqtt/Expiry.antt =====
-- broker/src/mqtt_message_expiry.rs: when a message expires, and what its receiver is told.
use yed_mq.Base.{
  ℕ, ◌+◌, ◌-◌, ◌≤◌, ◌<◌, ◌≡◌, refl, Bool, true, false, Option, none, some, arith, leb,
  if◌then◌else◌, min, u32_max, u64_max, saturating_add, saturating_sub,
}
use yed_mq.Mqtt.Packet.{Packet, Publish, ProtocolVersion, v3_1_1, v5_0, publish}

stamp : Publish → ℕ → Option ℕ → Option ℕ → Publish
stamp p now (some at) interval = p
stamp p now none none = p
stamp p now none (some interval) = record p {
  expires_at_unix_secs = some (saturating_add now interval);
}

pub stamp_publish_expiry : Publish → ℕ → Publish
unfolding stamp
stamp_publish_expiry p now = stamp p now p.expires_at_unix_secs p.properties.message_expiry_interval

abbrev reached : Option ℕ → ℕ → Bool
reached none now = false
reached (some at) now = leb at now

unfoldable pub is_publish_expired : Publish → ℕ → Bool
is_publish_expired p now = reached p.expires_at_unix_secs now

unfoldable pub is_packet_expired : Packet → ℕ → Bool
is_packet_expired (publish p) now = is_publish_expired p now
is_packet_expired _ now = false

-- A `u32` of what is left of the interval.
abbrev remaining : ℕ → ℕ → ℕ
remaining at now = min (saturating_sub at now) u32_max

tell : Publish → ProtocolVersion → ℕ → ℕ → Publish
tell p v5_0 at now = record p {
  properties = record (p.properties) { message_expiry_interval = some (remaining at now) };
}
tell p v3_1_1 at now = p

prepare : Publish → ProtocolVersion → ℕ → Option ℕ → Publish × Bool
unfolding tell
prepare p version now none = (p, true)
prepare p version now (some at) = if leb at now then (p, false) else (tell p version at now, true)

pub prepare_publish_for_delivery : Publish → ProtocolVersion → ℕ → Publish × Bool
unfolding prepare
prepare_publish_for_delivery p version now = prepare p version now p.expires_at_unix_secs

pub prepare_packet_for_delivery : Packet → ProtocolVersion → ℕ → Packet × Bool
prepare_packet_for_delivery (publish p) version now =
    let (p', deliver) = prepare_publish_for_delivery p version now in (publish p', deliver)
prepare_packet_for_delivery p version now = (p, true)

abbrev earlier : Option ℕ → ℕ → ℕ
earlier none route = route
earlier (some at) route = min at route

pub route_expiry_at : Packet → ℕ → ℕ → ℕ
route_expiry_at (publish p) ttl now = earlier p.expires_at_unix_secs (saturating_add now ttl)
route_expiry_at _ ttl now = saturating_add now ttl

-- A message is delivered exactly when it has not expired, and nothing of it but its expiry interval
-- may differ from the message that was stored.
pub delivered_iff :
    (p : Publish) (version : ProtocolVersion) (now : ℕ)
    → let r = prepare_publish_for_delivery p version now in
      (r.1 ≡ (if is_publish_expired p now then false else true))
      × (r.0 ≡ record p {
        properties = record (p.properties) {
          message_expiry_interval = r.0.properties.message_expiry_interval;
        };
      })
unfolding prepare_publish_for_delivery is_publish_expired
delivered_iff p version now = go p.expires_at_unix_secs version
  where
    go :
        (o : Option ℕ) (v : ProtocolVersion)
        → let r = prepare p v now o in
          (r.1 ≡ (if reached o now then false else true))
          × (r.0 ≡ record p {
            properties = record (p.properties) {
              message_expiry_interval = r.0.properties.message_expiry_interval;
            };
          })
    go none v = (refl, refl)
    go (some at) v5_0 = ground arith
    go (some at) v3_1_1 = ground arith

-- A message stamped at `now` with the interval `d` reaches a receiver at `later` exactly as long as
-- less than `d` seconds have passed, and an MQTT 5 receiver then reads the rest of the interval:
-- the two times add up. The interval is a `u32`, and the deadline lies within a `u64`.
pub stamp_prepare :
    (p : Publish) (now later d : ℕ)
    → p.expires_at_unix_secs ≡ none
    → p.properties.message_expiry_interval ≡ some d
    → now ≤ later
    → d ≤ u32_max
    → now + d < u64_max
    → let r = prepare_publish_for_delivery (stamp_publish_expiry p now) v5_0 later in
      (r.1 ≡ (if leb d (later - now) then false else true))
      × (r.1 ≡ true → r.0.properties.message_expiry_interval ≡ some (d - (later - now)))
unfolding prepare_publish_for_delivery stamp_publish_expiry
stamp_prepare p now later d e f le small fits = rw (e, f) (ground arith, λ h. ground arith)
