-- ===== src/Mqtt/V5/Codec/Received.antt =====
-- mqtt/src/v5/mod.rs: the packets that can be sent, and what the other side receives.
use yed_mq.Base.{All, map, none, ok, u16_max, u32_max, ◌≡◌, ◌≤◌}
use yed_mq.Mqtt.Packet.{Packet, Properties}
use yed_mq.Mqtt.V5.ReasonCode.RoundTrip.{as_read}
use yed_mq.Mqtt.V5.Properties.Rounds.{IfSome}
use yed_mq.Mqtt.V5.Primitives.Taken.{Utf8}
use yed_mq.Mqtt.V5.Properties.Encodable.{IsEncodable}
use yed_mq.Mqtt.V5.Connect
use yed_mq.Mqtt.V5.Disconnect
use yed_mq.Mqtt.V5.Connect.RoundTrip.{IsConnectable}
use yed_mq.Mqtt.V5.Disconnect.RoundTrip.{as_disconnect}
use yed_mq.Mqtt.V5.Suback.RoundTrip.{as_granted}

-- The values of a packet are those that its types can hold; strings are UTF-8.
abbrev pub IsSendablePacket : Packet → Type 0
IsSendablePacket (Packet.connect p) = IsConnectable p
IsSendablePacket (Packet.connack p) = IsEncodable p.properties
IsSendablePacket (Packet.publish p) =
    IsEncodable p.properties × Utf8 p.topic_name × IfSome (λ n. n ≤ u16_max) p.packet_identifier
IsSendablePacket (Packet.puback p) = IsEncodable p.properties × (p.packet_identifier ≤ u16_max)
IsSendablePacket (Packet.pubrec p) = IsEncodable p.properties × (p.packet_identifier ≤ u16_max)
IsSendablePacket (Packet.pubrel p) = IsEncodable p.properties × (p.packet_identifier ≤ u16_max)
IsSendablePacket (Packet.pubcomp p) = IsEncodable p.properties × (p.packet_identifier ≤ u16_max)
IsSendablePacket (Packet.suback p) = IsEncodable p.properties × (p.packet_identifier ≤ u16_max)
IsSendablePacket (Packet.unsuback p) = IsEncodable p.properties × (p.packet_identifier ≤ u16_max)
IsSendablePacket (Packet.subscribe p) =
    IsEncodable p.properties
    × (p.packet_identifier ≤ u16_max)
    × All (λ t. Utf8 t.topic_filter) p.topics
IsSendablePacket (Packet.unsubscribe p) =
    IsEncodable p.properties × (p.packet_identifier ≤ u16_max) × All (λ t. Utf8 t) p.topics
IsSendablePacket Packet.pingreq = Unit
IsSendablePacket Packet.pingresp = Unit
IsSendablePacket (Packet.disconnect p) =
    IfSome (λ n. n ≤ u32_max) p.session_expiry_interval × IsEncodable p.properties
IsSendablePacket (Packet.auth p) = IsEncodable p.properties

-- What the other side reads: reason codes that share a byte are read as one, the session expiry interval
-- is the same in the packet and in its properties, and the moment of expiry is not sent.
abbrev pub Received : Packet → Packet → Type 0
Received (Packet.connect p) r =
    (q : Properties) × (Connect.normalized_connect_properties p ≡ ok q)
    × (r
        ≡ Packet.connect
            (record p { session_expiry_interval = q.session_expiry_interval; properties = q }))
Received (Packet.disconnect p) r =
    (q : Properties) × (Disconnect.normalized_disconnect_properties p ≡ ok q)
    × (r
        ≡ Packet.disconnect (record p {
          reason_code = as_disconnect p.reason_code;
          session_expiry_interval = q.session_expiry_interval;
          properties = q;
        }))
Received (Packet.publish p) r = r ≡ Packet.publish (record p { expires_at_unix_secs = none })
Received (Packet.connack p) r =
    r ≡ Packet.connack (record p { reason_code = as_read p.reason_code })
Received (Packet.puback p) r = r ≡ Packet.puback (record p { reason_code = as_read p.reason_code })
Received (Packet.pubrec p) r = r ≡ Packet.pubrec (record p { reason_code = as_read p.reason_code })
Received (Packet.pubrel p) r = r ≡ Packet.pubrel (record p { reason_code = as_read p.reason_code })
Received (Packet.pubcomp p) r =
    r ≡ Packet.pubcomp (record p { reason_code = as_read p.reason_code })
Received (Packet.auth p) r = r ≡ Packet.auth (record p { reason_code = as_read p.reason_code })
Received (Packet.suback p) r =
    r ≡ Packet.suback (record p { reason_codes = map as_granted p.reason_codes })
Received (Packet.unsuback p) r =
    r ≡ Packet.unsuback (record p { reason_codes = map as_read p.reason_codes })
Received p r = r ≡ p
