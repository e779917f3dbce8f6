-- ===== src/Mqtt/V5/Connect/RoundTrip.antt =====
-- mqtt/src/v5/connect.rs: a CONNECT packet that is written is read back.
use yed_mq.Base.{
  List, Option, Text, [], ap, append-nil, append_assoc, arith, codes, is_some, length,
  length-append, none, ok, ok_injective, passed, refl, some, through, u16_max, u32_max, ℕ, ◌&&◌,
  ◌++◌, ◌+◌, ◌<◌, ◌^◌, ◌∷◌, ◌≡◌, ◌≤◌,
}
use yed_mq.Mqtt.Packet.{Connect, Packet, Properties, Will, v5_0}
use yed_mq.Mqtt.V5.Primitives.{
  Parsed, encode_binary, encode_utf8_string, is_utf8, parse_utf8_string, put_u16,
}
use yed_mq.Mqtt.V5.FixedHeader.{ControlPacketType}
use yed_mq.Mqtt.V5.Properties.Identifier.{PropertyScope}
use yed_mq.Mqtt.V5.Properties.Encode
use yed_mq.Mqtt.V5.Properties.Encode.{Written}
use yed_mq.Mqtt.V5.Frame.{is_none, is_v5}
use yed_mq.Mqtt.V5.Primitives.Reading.{Reads, binary-Reads, string-Reads, u16-Reads}
use yed_mq.Mqtt.V5.Properties.Rounds.{IfSome}
use yed_mq.Mqtt.V5.Primitives.Taken.{Utf8}
use yed_mq.Mqtt.V5.Properties.Encodable.{IsEncodable}
use yed_mq.Mqtt.V5.Properties.RoundTrip.{properties_back}
use yed_mq.Mqtt.V5.Frame.RoundTrip.{framed_back, v5_of}
use yed_mq.Mqtt.V5.Normalized.Fits.{normalized-IsEncodable}
use yed_mq.Mqtt.V5.ConnectFlags
use yed_mq.Mqtt.V5.ConnectFlags.{ConnectFlags}
use yed_mq.Mqtt.V5.ConnectFlags.RoundTrip.{encode_iff_parse, encode_small_byte}
use yed_mq.Mqtt.V5.Connect.{
  encode, flags_of, normalized_connect_properties, parse, parse_body, parse_if, parse_password,
  parse_will, protocol_name, reject_enhanced_auth, will_qos_of, will_retain_of, write_if,
  write_will,
}

-- A will whose values can be encoded.
pub record IsSendable (will : Will) : Type 0 where
  pub topic_fits : Utf8 will.topic
  pub properties_fit : IsEncodable will.properties

if_back :
    {A : Type 0} (write : A → Written) (item : List ℕ → Parsed A) (value : Option A)
    {bytes : List ℕ}
    → ((x : A) → value ≡ some x → write x ≡ ok bytes → Reads item bytes x)
    → write_if write value ≡ ok bytes
    → Reads (parse_if (is_some value) item) bytes value
unfolding write_if parse_if
if_back write item none back e rest = rw (← ok_injective e) refl
if_back write item (some x) back e rest = rw (back x refl e rest) refl

will_back :
    (flags : ConnectFlags) (will : Will) {bytes : List ℕ}
    → flags.will_qos ≡ will.qos
    → flags.will_retain ≡ will.retain
    → IsSendable will
    → length bytes < 2 ^ 32
    → write_will will ≡ ok bytes
    → Reads (parse_will flags) bytes will
unfolding write_will parse_will
will_back flags will {bytes} q r fits short e rest =
    through (Encode.encode will.properties PropertyScope.will) _ e λ properties written e.
      through (encode_utf8_string will.topic) _ e λ topic named e.
        through (encode_binary will.payload) _ e λ payload stored e.
          let same = ok_injective e in
          let below : length properties < 2 ^ 32 =
            omega (arith, short, ap length same, length-append properties (topic ++ payload)) in
          rw
            (
              ← same,
              append_assoc properties (topic ++ payload) rest,
              append_assoc topic payload rest,
              properties_back will.properties PropertyScope.will (topic ++ (payload ++ rest))
                  fits.properties_fit below written,
              string-Reads will.topic named fits.topic_fits (payload ++ rest),
              binary-Reads will.payload stored rest,
              q,
              r,
            )
            refl

password-Reads :
    (value : Text) {bytes : List ℕ}
    → encode_binary value ≡ ok bytes
    → Utf8 value
    → Reads parse_password bytes value
unfolding parse_password
password-Reads value e utf8 rest = rw (binary-Reads value e rest, utf8) refl

name_back :
    {bytes : List ℕ}
    → encode_utf8_string protocol_name ≡ ok bytes
    → Reads parse_utf8_string bytes protocol_name
unfolding is_utf8
name_back e = string-Reads protocol_name e refl

qos_of_will :
    (o : Option Will) (will : Will)
    → o ≡ some will
    → (will_qos_of o ≡ will.qos) × (will_retain_of o ≡ will.retain)
qos_of_will o will e = rw e (refl, refl)

-- The values of a CONNECT packet can be encoded.
pub record IsConnectable (p : Connect) : Type 0 where
  pub client_id_fits : Utf8 p.client_id
  pub username_fits : IfSome Utf8 p.username
  pub password_fits : IfSome Utf8 p.password
  pub keep_alive_fits : p.keep_alive ≤ u16_max
  pub interval_fits : IfSome (λ n. n ≤ u32_max) p.session_expiry_interval
  pub properties_fit : IsEncodable p.properties
  pub will_fits : IfSome IsSendable p.will

held : {A : Type 0} (P : A → Type 0) (o : Option A) (x : A) → IfSome P o → o ≡ some x → P x
held P o x h e = rw e at h

module _ (p : Connect) (q : Properties) (w : IsConnectable p) (wq : IsEncodable q) where
  body_back :
      (value : ℕ) {name properties client_id will username password : List ℕ}
      → ConnectFlags.parse value ≡ ok (flags_of p)
      → reject_enhanced_auth q ≡ ok tt
      → encode_utf8_string protocol_name ≡ ok name
      → Encode.encode q PropertyScope.connect ≡ ok properties
      → encode_utf8_string p.client_id ≡ ok client_id
      → write_if write_will p.will ≡ ok will
      → write_if encode_utf8_string p.username ≡ ok username
      → write_if encode_binary p.password ≡ ok password
      → length properties < 2 ^ 32
      → length will < 2 ^ 32
      → parse_body (
          name
          ++ (5
              ∷ value
              ∷ (put_u16 p.keep_alive
                  ++ (properties ++ (client_id ++ (will ++ (username ++ password)))))))
        ≡ ok (record p {
          protocol_version = v5_0;
          session_expiry_interval = q.session_expiry_interval;
          properties = q;
        })
  unfolding parse_body
  body_back value {name} {properties} {client_id} {will} {username} {password} flags plain e1 e2 e3
        e4 e5 e6 s1 s2 =
      let tail4 = username ++ password in
      let tail3 = will ++ tail4 in
      let tail2 = client_id ++ tail3 in
      let tail1 = properties ++ tail2 in
      let will_read =
        if_back write_will (parse_will (flags_of p)) p.will {bytes = will}
          (λ x found e.
            let (qos, retain) = qos_of_will p.will x found in
            will_back (flags_of p) x qos retain (held IsSendable p.will x w.will_fits found) s2 e)
          e4 in
      let name_read =
        if_back encode_utf8_string parse_utf8_string p.username {bytes = username}
          (λ x found e. string-Reads x e (held Utf8 p.username x w.username_fits found)) e5 in
      let password_read =
        if_back encode_binary parse_password p.password {bytes = password}
          (λ x found e. password-Reads x e (held Utf8 p.password x w.password_fits found)) e6 [] in
      rw
        (
          name_back e1 (5 ∷ value ∷ (put_u16 p.keep_alive ++ tail1)),
          flags,
          u16-Reads p.keep_alive (codes "CONNECT keep alive") w.keep_alive_fits tail1,
          properties_back q PropertyScope.connect tail2 wq s1 e2,
          plain,
          string-Reads p.client_id e3 w.client_id_fits tail3,
          will_read tail4,
          name_read password,
          rw (append-nil password) at password_read,
        )
        refl

-- A CONNECT packet that is encoded, within the limit on the size of a packet, is read back with what
-- follows it left over: as it was, but for its properties, to which the session expiry interval of the
-- packet is added, and for that interval, which is that of the properties.
pub connect_back :
    (p : Connect) (max : ℕ) (rest : List ℕ) {bytes : List ℕ}
    → IsConnectable p
    → length bytes ≤ max
    → encode p ≡ ok bytes
    → (q : Properties) × (normalized_connect_properties p ≡ ok q)
      × (parse (bytes ++ rest) max
          ≡ ok (
            Packet.connect
                (record p { session_expiry_interval = q.session_expiry_interval; properties = q }),
            rest,
          ))
unfolding encode parse normalized_connect_properties reject_enhanced_auth
connect_back p max rest {bytes} w fits e = passed (is_v5 p.protocol_version) _ _ e λ version e.
    through (normalized_connect_properties p) _ e λ q normal e.
      passed (is_none q.authentication_method && is_none q.authentication_data) _ _ e λ plain e.
        through (encode_utf8_string protocol_name) _ e λ name e1 e.
          through (ConnectFlags.encode (flags_of p)) _ e λ value flags e.
            through (Encode.encode q PropertyScope.connect) _ e λ properties e2 e.
              through (encode_utf8_string p.client_id) _ e λ client_id e3 e.
                through (write_if write_will p.will) _ e λ will e4 e.
                  through (write_if encode_utf8_string p.username) _ e λ username e5 e.
                    through (write_if encode_binary p.password) _ e λ password e6 e.
                      let tail3 = will ++ (username ++ password) in
                      let tail1 = properties ++ (client_id ++ tail3) in
                      let frame =
                        framed_back ControlPacketType.connect 0 max
                          (name ++ (5 ∷ value ∷ (put_u16 p.keep_alive ++ tail1))) rest (omega arith)
                          fits e in
                      let room : length properties + length will < 2 ^ 32 = omega (
                        arith,
                        frame.short,
                        length-append name (5 ∷ value ∷ (put_u16 p.keep_alive ++ tail1)),
                        length-append properties (client_id ++ tail3),
                        length-append client_id tail3,
                        length-append will (username ++ password),
                      ) in
                      let wq =
                        normalized-IsEncodable _ p.session_expiry_interval p.properties
                          w.interval_fits w.properties_fit normal in
                      let read =
                        (encode_iff_parse (flags_of p) value
                            (encode_small_byte (flags_of p) flags)).0
                          flags in
                      let back =
                        body_back p q w wq value read (rw plain refl) e1 e2 e3 e4 e5 e6
                          (omega (arith, room)) (omega (arith, room)) in
                      (
                        q,
                        normal,
                        rw (frame.head _, frame.split _, back, v5_of p.protocol_version version)
                            refl,
                      )
