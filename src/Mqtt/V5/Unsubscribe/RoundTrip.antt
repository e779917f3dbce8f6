-- ===== src/Mqtt/V5/Unsubscribe/RoundTrip.antt =====
-- mqtt/src/v5/unsubscribe.rs: a UNSUBSCRIBE packet that is written is read back.
use yed_mq.Base.{
  All, List, Text, arith, length, length-append, map, not, ok, passed, refl, through, true, u16_max,
  ℕ, ◌++◌, ◌<◌, ◌^◌, ◌≡◌, ◌≤◌,
}
use yed_mq.Mqtt.Packet.{Packet, Properties, Unsubscribe, v5_0}
use yed_mq.Mqtt.V5.Primitives.{put_u16}
use yed_mq.Mqtt.V5.FixedHeader.{ControlPacketType}
use yed_mq.Mqtt.V5.Properties.Identifier.{PropertyScope}
use yed_mq.Mqtt.V5.Properties.Parse.{not_zero}
use yed_mq.Mqtt.V5.Properties.Encode
use yed_mq.Mqtt.V5.Properties.Encode.{Written}
use yed_mq.Mqtt.V5.Frame.{is_empty, is_v5}
use yed_mq.Mqtt.V5.Primitives.Reading.{Reads, encode_utf8_string_pos, string-Reads, u16-Reads}
use yed_mq.Mqtt.V5.Primitives.Taken.{Utf8}
use yed_mq.Mqtt.V5.Properties.Encodable.{IsEncodable}
use yed_mq.Mqtt.V5.Properties.RoundTrip.{properties_back}
use yed_mq.Mqtt.V5.Frame.RoundTrip.{framed_back, v5_of}
use yed_mq.Mqtt.V5.Properties.Encode.{write_all}
use yed_mq.Mqtt.V5.Each.{read_all-write_all}
use yed_mq.Mqtt.V5.Unsubscribe.{encode, encode_one, parse, parse_body, parse_one}

one_back :
    (t : Text) (bytes : List ℕ)
    → Utf8 t
    → encode_one t ≡ ok bytes
    → (0 < length bytes) × Reads parse_one bytes t
unfolding encode_one parse_one
one_back t bytes utf8 e =
    passed (not (is_empty t)) _ _ e
      λ named e. (encode_utf8_string_pos t e, λ rest. rw (string-Reads t e utf8 rest, named) refl)

same_packet :
    (p : Unsubscribe)
    → is_v5 p.protocol_version ≡ true
    → ◌≡◌ {A = Unsubscribe}
        (record {
          protocol_version = v5_0;
          packet_identifier = p.packet_identifier;
          topics = p.topics;
          properties = p.properties;
        })
        p
same_packet p e = let version = v5_of p.protocol_version e in ground arith

body_back :
    (n : ℕ) (p : Properties) (ts : List Text) {properties topics : List ℕ}
    → n ≤ u16_max
    → not_zero n ≡ true
    → not (is_empty ts) ≡ true
    → All (λ t. Utf8 t) ts
    → IsEncodable p
    → length properties < 2 ^ 32
    → Encode.encode p PropertyScope.unsubscribe ≡ ok properties
    → write_all (map encode_one ts) ≡ ok topics
    → parse_body (put_u16 n ++ (properties ++ topics))
      ≡ ok (record { protocol_version = v5_0; packet_identifier = n; topics = ts; properties = p })
unfolding parse_body
body_back n p ts {properties} {topics} size pos some_topic utf8 w short e e' =
    let topics_back =
      read_all-write_all encode_one parse_one (λ t. Utf8 t) one_back ts topics (length topics) utf8
        (omega arith) e' in
    rw
      (
        u16-Reads n _ size (properties ++ topics),
        pos,
        properties_back p PropertyScope.unsubscribe topics w short e,
        topics_back,
        some_topic,
      )
      refl

-- An UNSUBSCRIBE packet that is encoded, within the limit on the size of a packet, is read back as it
-- was, with what follows it left over.
pub unsubscribe_back :
    (p : Unsubscribe) (max : ℕ) (rest : List ℕ) {bytes : List ℕ}
    → IsEncodable p.properties
    → p.packet_identifier ≤ u16_max
    → All (λ t. Utf8 t) p.topics
    → length bytes ≤ max
    → encode p ≡ ok bytes
    → parse (bytes ++ rest) max ≡ ok (Packet.unsubscribe p, rest)
unfolding encode parse
unsubscribe_back p max rest {bytes} w size utf8 fits e =
    passed (is_v5 p.protocol_version) _ _ e λ version e.
      passed (not_zero p.packet_identifier) _ _ e λ pos e.
        passed (not (is_empty p.topics)) _ _ e λ some_topic e.
          through (Encode.encode p.properties PropertyScope.unsubscribe) _ e λ properties written e.
            through (write_all (map encode_one p.topics)) _ e λ topics written' e.
              let frame =
                framed_back ControlPacketType.unsubscribe 2 max
                  (put_u16 p.packet_identifier ++ (properties ++ topics)) rest (omega arith) fits
                  e in
              let short : length properties < 2 ^ 32 =
                omega (arith, frame.short, length-append properties topics) in
              let back =
                body_back p.packet_identifier p.properties p.topics size pos some_topic utf8 w short
                  written written' in
              rw (frame.head _, frame.split _, back, same_packet p version) refl
