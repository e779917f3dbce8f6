-- ===== src/Mqtt/V5/Publish/RoundTrip.antt =====
-- mqtt/src/v5/publish.rs: a PUBLISH packet that is written is read back.
use yed_mq.Base.{
  Bool, List, Option, arith, codes, false, leb, length, length-append, none, not, ok, passed, refl,
  some, subst, sym, through, true, u16_max, ℕ, ◌++◌, ◌<◌, ◌^◌, ◌≡◌, ◌≤◌,
}
use yed_mq.Mqtt.Packet.{Packet, Publish, v5_0}
use yed_mq.Mqtt.V5.Primitives.{encode_utf8_string}
use yed_mq.Mqtt.V5.FixedHeader.{ControlPacketType, FixedHeader}
use yed_mq.Mqtt.V5.Properties.Identifier.{PropertyScope}
use yed_mq.Mqtt.V5.Properties.Encode
use yed_mq.Mqtt.V5.Properties.Encode.{Written}
use yed_mq.Mqtt.V5.Frame.{is_empty, is_none, is_v5}
use yed_mq.Mqtt.V5.Primitives.Reading.{string-Reads, u16-Reads}
use yed_mq.Mqtt.V5.FixedHeader.{header_of}
use yed_mq.Mqtt.V5.Properties.Rounds.{IfSome}
use yed_mq.Mqtt.V5.Primitives.Taken.{Utf8}
use yed_mq.Mqtt.V5.Properties.Encodable.{IsEncodable}
use yed_mq.Mqtt.V5.Properties.RoundTrip.{properties_back}
use yed_mq.Mqtt.V5.Frame.RoundTrip.{framed_back, v5_of}
use yed_mq.Mqtt.V5.Publish.{
  check_identifier, encode, flags_of, parse, parse_body, parse_identifier, write_identifier,
}

flags_back :
    (dup : Bool) (qos : ℕ) (retain : Bool) (n : ℕ)
    → qos ≤ 2
    → header_of ControlPacketType.publish (flags_of dup qos retain) n ≡ record {
      packet_type = ControlPacketType.publish;
      flags = flags_of dup qos retain;
      dup = dup;
      qos = qos;
      retain = retain;
      remaining_length = n;
    }
flags_back true qos true n h = ground arith
flags_back true qos false n h = ground arith
flags_back false qos true n h = ground arith
flags_back false qos false n h = ground arith

flags_small : (dup : Bool) (qos : ℕ) (retain : Bool) → flags_of dup qos retain < 16
flags_small dup qos retain = ground arith

identifier_back :
    (qos : ℕ) (identifier : Option ℕ) (rest : List ℕ)
    → qos ≤ 2
    → IfSome (λ n. n ≤ u16_max) identifier
    → check_identifier qos identifier ≡ ok tt
    → parse_identifier qos (write_identifier identifier ++ rest) ≡ ok (identifier, rest)
unfolding check_identifier parse_identifier
identifier_back qos none rest small h e = ground arith
identifier_back qos (some n) rest small h e =
    let back = u16-Reads n (codes "PUBLISH packet identifier") h rest in ground (arith, back)

body_back :
    (h : FixedHeader) (p : Publish) {topic_name properties : List ℕ}
    → h.qos ≤ 2
    → Utf8 p.topic_name
    → IfSome (λ n. n ≤ u16_max) p.packet_identifier
    → IsEncodable p.properties
    → not (is_empty p.topic_name) ≡ true
    → is_none p.properties.topic_alias ≡ true
    → check_identifier h.qos p.packet_identifier ≡ ok tt
    → encode_utf8_string p.topic_name ≡ ok topic_name
    → length properties < 2 ^ 32
    → Encode.encode p.properties PropertyScope.publish ≡ ok properties
    → parse_body
        (topic_name ++ (write_identifier p.packet_identifier ++ (properties ++ p.payload)))
        h
      ≡ ok (record p {
        protocol_version = v5_0;
        qos = h.qos;
        retain = h.retain;
        dup = h.dup;
        expires_at_unix_secs = none;
      })
unfolding parse_body
body_back h p {topic_name} {properties} small utf8 size w named plain checked_id topic short e =
    rw
      (
        string-Reads p.topic_name topic utf8
            (write_identifier p.packet_identifier ++ (properties ++ p.payload)),
        named,
        identifier_back h.qos p.packet_identifier (properties ++ p.payload) small size checked_id,
        properties_back p.properties PropertyScope.publish p.payload w short e,
        plain,
      )
      refl

-- A PUBLISH packet that is encoded, within the limit on the size of a packet, is read back with what
-- follows it left over; only the moment of its expiry, which is not sent, is lost.
pub publish_back :
    (p : Publish) (max : ℕ) (rest : List ℕ) {bytes : List ℕ}
    → IsEncodable p.properties
    → Utf8 p.topic_name
    → IfSome (λ n. n ≤ u16_max) p.packet_identifier
    → length bytes ≤ max
    → encode p ≡ ok bytes
    → parse (bytes ++ rest) max
      ≡ ok (Packet.publish (record p { expires_at_unix_secs = none }), rest)
unfolding encode parse
publish_back p max rest {bytes} w utf8 size fits e =
    passed (is_v5 p.protocol_version) _ _ e λ version e. passed (leb p.qos 2) _ _ e λ low e.
      passed (not (is_empty p.topic_name)) _ _ e λ named e.
        passed (is_none p.properties.topic_alias) _ _ e λ plain e.
          through (check_identifier p.qos p.packet_identifier) _ e λ u checked_id e.
            through (encode_utf8_string p.topic_name) _ e λ topic_name topic e.
              through (Encode.encode p.properties PropertyScope.publish) _ e λ properties written e.
                let small : p.qos ≤ 2 = ground arith in
                let flags = flags_of p.dup p.qos p.retain in
                let body =
                  topic_name
                  ++ (write_identifier p.packet_identifier ++ (properties ++ p.payload)) in
                let frame =
                  framed_back ControlPacketType.publish flags max body rest
                    (flags_small p.dup p.qos p.retain) fits e in
                let h : FixedHeader = header_of ControlPacketType.publish flags (length body) in
                let same = flags_back p.dup p.qos p.retain (length body) small in
                let short : length properties < 2 ^ 32 = omega (
                  arith,
                  frame.short,
                  length-append topic_name
                      (write_identifier p.packet_identifier ++ (properties ++ p.payload)),
                  length-append (write_identifier p.packet_identifier) (properties ++ p.payload),
                  length-append properties p.payload,
                ) in
                let back =
                  body_back
                    (record {
                      packet_type = ControlPacketType.publish;
                      flags = flags;
                      dup = p.dup;
                      qos = p.qos;
                      retain = p.retain;
                      remaining_length = length body;
                    })
                    p small utf8 size w named plain checked_id topic short written in
                let back' =
                  subst
                    (λ x.
                      parse_body body x
                      ≡ ok (record p { protocol_version = v5_0; expires_at_unix_secs = none }))
                    (sym same) back in
                rw (frame.head _, frame.split _, back', v5_of p.protocol_version version) refl
