-- ===== src/Mqtt/Tests.antt =====
-- broker/src/mqtt_message_expiry.rs on a concrete message.
use yed_mq.Base.{◌-◌, ◌≡◌, refl, true, false, none, some, [], ◌∷◌, arith, leb, if◌then◌else◌}
use yed_mq.Mqtt.Packet.{Publish, default_properties, v5_0}
use yed_mq.Mqtt.Expiry.{stamp_publish_expiry, prepare_publish_for_delivery, stamp_prepare}

abbrev message : Publish
message = record {
  protocol_version = v5_0;
  topic_name = b't' ∷ [];
  payload = b'x' ∷ [];
  qos = 1;
  retain = false;
  dup = false;
  packet_identifier = some 9;
  properties = record default_properties { message_expiry_interval = some 30 };
  expires_at_unix_secs = none;
}

stamp_prepare_example :
    let r = prepare_publish_for_delivery (stamp_publish_expiry message 100) v5_0 120 in
    (r.1 ≡ (if leb 30 (120 - 100) then false else true))
    × (r.1 ≡ true → r.0.properties.message_expiry_interval ≡ some (30 - (120 - 100)))
stamp_prepare_example =
    stamp_prepare message 100 120 30 refl refl (omega arith) (omega arith) (omega arith)
