-- ===== src/Mqtt/V5/Subscribe/RoundTrip.antt =====
-- mqtt/src/v5/subscribe.rs: a SUBSCRIBE packet that is written is read back.
use yed_mq.Base.{
  All, List, [], ap, append_assoc, arith, codes, leb, length, length-append, map, not, ok,
  ok_injective, passed, refl, through, true, u16_max, ℕ, ◌++◌, ◌<◌, ◌^◌, ◌∷◌, ◌≡◌, ◌≤◌,
}
use yed_mq.Mqtt.Packet.{Packet, Properties, Subscribe, SubscribeTopic, v5_0}
use yed_mq.Mqtt.V5.Primitives.{encode_utf8_string, put_u16}
use yed_mq.Mqtt.V5.FixedHeader.{ControlPacketType}
use yed_mq.Mqtt.V5.Properties.Identifier.{PropertyScope}
use yed_mq.Mqtt.V5.Properties.Parse.{not_zero}
use yed_mq.Mqtt.V5.Properties.Encode
use yed_mq.Mqtt.V5.Properties.Encode.{Written}
use yed_mq.Mqtt.V5.Frame.{is_empty, is_v5}
use yed_mq.Mqtt.V5.Primitives.Reading.{Reads, string-Reads, u16-Reads, u8-Reads}
use yed_mq.Mqtt.V5.Primitives.Taken.{Utf8}
use yed_mq.Mqtt.V5.Properties.Encodable.{IsEncodable}
use yed_mq.Mqtt.V5.Properties.RoundTrip.{properties_back}
use yed_mq.Mqtt.V5.Frame.RoundTrip.{framed_back, v5_of}
use yed_mq.Mqtt.V5.Properties.Encode.{write_all}
use yed_mq.Mqtt.V5.Each.{read_all-write_all}
use yed_mq.Mqtt.V5.Subscribe.{
  encode, encode_one, encode_options, parse, parse_body, parse_one, parse_topic,
}

options_back :
    (t : SubscribeTopic) → leb t.qos 2 ≡ true → parse_topic t.topic_filter (encode_options t) ≡ ok t
unfolding parse_topic encode_options
options_back t e = ground arith

one_back :
    (t : SubscribeTopic) (bytes : List ℕ)
    → Utf8 t.topic_filter
    → encode_one t ≡ ok bytes
    → (0 < length bytes) × Reads parse_one bytes t
unfolding encode_one parse_one
one_back t bytes utf8 e = passed (not (is_empty t.topic_filter)) _ _ e λ named e.
    passed (leb t.qos 2) _ _ e λ low e.
      through (encode_utf8_string t.topic_filter) _ e λ name written e.
        let same = ok_injective e in
        (
          omega (arith, ap length same, length-append name (encode_options t ∷ [])),
          λ rest.
              rw
                (
                  ← same,
                  append_assoc name (encode_options t ∷ []) rest,
                  string-Reads t.topic_filter written utf8 (encode_options t ∷ rest),
                  named,
                  u8-Reads (encode_options t) (codes "SUBSCRIBE options") rest,
                  options_back t low,
                )
                refl,
        )

same_packet :
    (p : Subscribe)
    → is_v5 p.protocol_version ≡ true
    → ◌≡◌ {A = Subscribe}
        (record {
          protocol_version = v5_0;
          packet_identifier = p.packet_identifier;
          topics = p.topics;
          properties = p.properties;
        })
        p
same_packet p e = let version = v5_of p.protocol_version e in ground arith

body_back :
    (n : ℕ) (p : Properties) (ts : List SubscribeTopic) {properties topics : List ℕ}
    → n ≤ u16_max
    → not_zero n ≡ true
    → not (is_empty ts) ≡ true
    → All (λ t. Utf8 t.topic_filter) ts
    → IsEncodable p
    → length properties < 2 ^ 32
    → Encode.encode p PropertyScope.subscribe ≡ ok properties
    → write_all (map encode_one ts) ≡ ok topics
    → parse_body (put_u16 n ++ (properties ++ topics))
      ≡ ok (record { protocol_version = v5_0; packet_identifier = n; topics = ts; properties = p })
unfolding parse_body
body_back n p ts {properties} {topics} size pos some_topic utf8 w short e e' =
    let topics_back =
      read_all-write_all encode_one parse_one (λ t. Utf8 t.topic_filter) one_back ts topics
        (length topics) utf8 (omega arith) e' in
    rw
      (
        u16-Reads n _ size (properties ++ topics),
        pos,
        properties_back p PropertyScope.subscribe topics w short e,
        topics_back,
        some_topic,
      )
      refl

-- A SUBSCRIBE packet that is encoded, within the limit on the size of a packet, is read back as it was,
-- its topics with their options in order, with what follows it left over.
pub subscribe_back :
    (p : Subscribe) (max : ℕ) (rest : List ℕ) {bytes : List ℕ}
    → IsEncodable p.properties
    → p.packet_identifier ≤ u16_max
    → All (λ t. Utf8 t.topic_filter) p.topics
    → length bytes ≤ max
    → encode p ≡ ok bytes
    → parse (bytes ++ rest) max ≡ ok (Packet.subscribe p, rest)
unfolding encode parse
subscribe_back p max rest {bytes} w size utf8 fits e =
    passed (is_v5 p.protocol_version) _ _ e λ version e.
      passed (not_zero p.packet_identifier) _ _ e λ pos e.
        passed (not (is_empty p.topics)) _ _ e λ some_topic e.
          through (Encode.encode p.properties PropertyScope.subscribe) _ e λ properties written e.
            through (write_all (map encode_one p.topics)) _ e λ topics written' e.
              let frame =
                framed_back ControlPacketType.subscribe 2 max
                  (put_u16 p.packet_identifier ++ (properties ++ topics)) rest (omega arith) fits
                  e in
              let short : length properties < 2 ^ 32 =
                omega (arith, frame.short, length-append properties topics) in
              let back =
                body_back p.packet_identifier p.properties p.topics size pos some_topic utf8 w short
                  written written' in
              rw (frame.head _, frame.split _, back, same_packet p version) refl
