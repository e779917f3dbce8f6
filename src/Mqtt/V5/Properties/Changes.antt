-- ===== src/Mqtt/V5/Properties/Changes.antt =====
-- mqtt/src/v5/properties.rs: what reading one property does to the properties.
use yed_mq.Base.{
  Bool, Bool-cases, List, Option, Result-cases, Text, [], err, inl, inr, none, ok, refl, some, true,
  u16_max, u32_max, ℕ, ◌++◌, ◌<◌, ◌>>=◌, ◌^◌, ◌∷◌, ◌≡◌, ◌≤◌,
}
use yed_mq.Mqtt.Packet.{Properties}
use yed_mq.Mqtt.V5.Primitives.{Parsed, parse_utf8_string}
use yed_mq.Mqtt.V5.Primitives.Taken.{
  Gives, Gives-ok, Taken-Bytes, Taken-trans, Utf8, binary-Gives, boolean-Gives, string-Gives,
  u16-Gives, u32-Gives, u8-Gives, varint-Gives,
}
use yed_mq.Mqtt.V5.Properties.Identifier.{
  PropertyIdentifier, payload_format_indicator, message_expiry_interval, content_type,
  response_topic, correlation_data, subscription_identifier, session_expiry_interval,
  assigned_client_identifier, server_keep_alive, authentication_method, authentication_data,
  request_problem_information, will_delay_interval, request_response_information,
  response_information, server_reference, reason_string, receive_maximum, topic_alias_maximum,
  topic_alias, maximum_qos, retain_available, user_property, maximum_packet_size,
  wildcard_subscription_available, subscription_identifier_available, shared_subscription_available,
}
use yed_mq.Mqtt.V5.Properties.Parse.{
  at_most_one, checked, not_zero, read_once, read_property, set_once,
}

-- A property that was absent has a value now, and nothing else has changed.
abbrev pub Once :
    {A : Type 0} → (A → Type 0) → Option A → (Option A → Properties) → Properties → Type 0
Once {A} V field put p' = (v : A) × (p' ≡ put (some v)) × V v × (field ≡ none)

abbrev pub Change : PropertyIdentifier → Properties → Properties → Type 0
Change payload_format_indicator p p' =
    Once (λ v. (v < 256) × (at_most_one v ≡ true)) p.payload_format_indicator
      (λ x. record p { payload_format_indicator = x }) p'
Change message_expiry_interval p p' =
    Once (λ v. v ≤ u32_max) p.message_expiry_interval
      (λ x. record p { message_expiry_interval = x }) p'
Change content_type p p' = Once Utf8 p.content_type (λ x. record p { content_type = x }) p'
Change response_topic p p' = Once Utf8 p.response_topic (λ x. record p { response_topic = x }) p'
Change correlation_data p p' =
    Once (λ v. Unit {0}) p.correlation_data (λ x. record p { correlation_data = x }) p'
Change subscription_identifier p p' =
    (v : ℕ) × (p' ≡ record p { subscription_identifiers = p.subscription_identifiers ++ v ∷ [] })
    × (v < 2 ^ 32)
    × (not_zero v ≡ true)
Change session_expiry_interval p p' =
    Once (λ v. v ≤ u32_max) p.session_expiry_interval
      (λ x. record p { session_expiry_interval = x }) p'
Change assigned_client_identifier p p' =
    Once Utf8 p.assigned_client_identifier (λ x. record p { assigned_client_identifier = x }) p'
Change server_keep_alive p p' =
    Once (λ v. v ≤ u16_max) p.server_keep_alive (λ x. record p { server_keep_alive = x }) p'
Change authentication_method p p' =
    Once Utf8 p.authentication_method (λ x. record p { authentication_method = x }) p'
Change authentication_data p p' =
    Once (λ v. Unit {0}) p.authentication_data (λ x. record p { authentication_data = x }) p'
Change request_problem_information p p' =
    Once (λ v. Unit {0}) p.request_problem_information
      (λ x. record p { request_problem_information = x }) p'
Change will_delay_interval p p' =
    Once (λ v. v ≤ u32_max) p.will_delay_interval (λ x. record p { will_delay_interval = x }) p'
Change request_response_information p p' =
    Once (λ v. Unit {0}) p.request_response_information
      (λ x. record p { request_response_information = x }) p'
Change response_information p p' =
    Once Utf8 p.response_information (λ x. record p { response_information = x }) p'
Change server_reference p p' =
    Once Utf8 p.server_reference (λ x. record p { server_reference = x }) p'
Change reason_string p p' = Once Utf8 p.reason_string (λ x. record p { reason_string = x }) p'
Change receive_maximum p p' =
    Once (λ v. (v ≤ u16_max) × (not_zero v ≡ true)) p.receive_maximum
      (λ x. record p { receive_maximum = x }) p'
Change topic_alias_maximum p p' =
    Once (λ v. v ≤ u16_max) p.topic_alias_maximum (λ x. record p { topic_alias_maximum = x }) p'
Change topic_alias p p' =
    Once (λ v. (v ≤ u16_max) × (not_zero v ≡ true)) p.topic_alias
      (λ x. record p { topic_alias = x }) p'
Change maximum_qos p p' =
    Once (λ v. (v < 256) × (at_most_one v ≡ true)) p.maximum_qos (λ x. record p { maximum_qos = x })
      p'
Change retain_available p p' =
    Once (λ v. Unit {0}) p.retain_available (λ x. record p { retain_available = x }) p'
Change user_property p p' =
    (kv : Text × Text) × (p' ≡ record p { user_properties = p.user_properties ++ kv ∷ [] })
    × Utf8 (kv.0)
    × Utf8 (kv.1)
Change maximum_packet_size p p' =
    Once (λ v. (v ≤ u32_max) × (not_zero v ≡ true)) p.maximum_packet_size
      (λ x. record p { maximum_packet_size = x }) p'
Change wildcard_subscription_available p p' =
    Once (λ v. Unit {0}) p.wildcard_subscription_available
      (λ x. record p { wildcard_subscription_available = x }) p'
Change subscription_identifier_available p p' =
    Once (λ v. Unit {0}) p.subscription_identifier_available
      (λ x. record p { subscription_identifier_available = x }) p'
Change shared_subscription_available p p' =
    Once (λ v. Unit {0}) p.shared_subscription_available
      (λ x. record p { shared_subscription_available = x }) p'

Once-Gives :
    {A : Type 0} (property : Text) (field : Option A) (put : Option A → Properties) (V : A → Type 0)
    (s : List ℕ) (m : Parsed A)
    → Gives V s m
    → Gives (Once V field put) s (read_once property field put m)
unfolding set_once
Once-Gives property field put V s (err x) g = tt
Once-Gives property (some old) put V s (ok (v, rest)) g = tt
Once-Gives property none put V s (ok (v, rest)) g = (g.0, λ h. (v, refl, g.1 h, refl))

checked-Gives :
    (test : ℕ → Bool) (property : Text) (V : ℕ → Type 0) (s : List ℕ) (m : Parsed ℕ)
    → Gives V s m
    → Gives (λ v. V v × (test v ≡ true)) s (checked test property m)
checked-Gives test property V s (err x) g = tt
checked-Gives test property V s (ok (v, rest)) g = elim (Bool-cases (test v)) [
  | inl good ↦ rw good (g.0, λ h. (g.1 h, good))
  | inr bad ↦ rw bad tt
]

identifier-Gives :
    (p : Properties) (s : List ℕ) (m : Parsed ℕ)
    → Gives (λ v. (v < 2 ^ 32) × (not_zero v ≡ true)) s m
    → Gives (Change subscription_identifier p) s (
        m >>= λ r.
        ok (record p { subscription_identifiers = p.subscription_identifiers ++ r.0 ∷ [] }, r.1))
identifier-Gives p s (err x) g = tt
identifier-Gives p s (ok (v, rest)) g = (g.0, λ h. (v, refl, (g.1 h).0, (g.1 h).1))

user-Gives :
    (p : Properties) (s : List ℕ)
    → Gives (Change user_property p) s (
        parse_utf8_string s >>= λ k. parse_utf8_string (k.1) >>= λ v.
        ok (record p { user_properties = p.user_properties ++ (k.0, v.0) ∷ [] }, v.1))
user-Gives p s = elim (Result-cases (parse_utf8_string s)) [
  | inr failed ↦ rw (failed.1) tt
  | inl key ↦
      let k = key.0 in
      let first = Gives-ok Utf8 s (parse_utf8_string s) (string-Gives s) (key.1) in
      elim (Result-cases (parse_utf8_string (k.1))) [
        | inr failed ↦ rw (key.1, failed.1) tt
        | inl value ↦
            let v = value.0 in
            let second =
              Gives-ok Utf8 (k.1) (parse_utf8_string (k.1)) (string-Gives (k.1)) (value.1) in
            rw (key.1, value.1)
              (
                Taken-trans s (k.1) (v.1) first.0 second.0,
                λ h. ((k.0, v.0), refl, first.1 h, second.1 (Taken-Bytes s (k.1) first.0 h)),
              )
      ]
]

-- Reading the value of a property takes bytes from the front of the input, and changes that property as
-- `Change` says.
pub read_property-Change :
    (i : PropertyIdentifier) (p : Properties) (s : List ℕ)
    → Gives (Change i p) s (read_property i p s)
unfolding read_property
read_property-Change payload_format_indicator p s =
    Once-Gives _ p.payload_format_indicator (λ x. record p { payload_format_indicator = x }) _ s _
      (checked-Gives at_most_one _ _ s _ (u8-Gives s _))
read_property-Change message_expiry_interval p s =
    Once-Gives _ p.message_expiry_interval (λ x. record p { message_expiry_interval = x }) _ s _
      (u32-Gives s _)
read_property-Change content_type p s =
    Once-Gives _ p.content_type (λ x. record p { content_type = x }) _ s _ (string-Gives s)
read_property-Change response_topic p s =
    Once-Gives _ p.response_topic (λ x. record p { response_topic = x }) _ s _ (string-Gives s)
read_property-Change correlation_data p s =
    Once-Gives _ p.correlation_data (λ x. record p { correlation_data = x }) _ s _ (binary-Gives s)
read_property-Change subscription_identifier p s =
    identifier-Gives p s _ (checked-Gives not_zero _ _ s _ (varint-Gives s))
read_property-Change session_expiry_interval p s =
    Once-Gives _ p.session_expiry_interval (λ x. record p { session_expiry_interval = x }) _ s _
      (u32-Gives s _)
read_property-Change assigned_client_identifier p s =
    Once-Gives _ p.assigned_client_identifier (λ x. record p { assigned_client_identifier = x }) _ s
      _ (string-Gives s)
read_property-Change server_keep_alive p s =
    Once-Gives _ p.server_keep_alive (λ x. record p { server_keep_alive = x }) _ s _ (u16-Gives s _)
read_property-Change authentication_method p s =
    Once-Gives _ p.authentication_method (λ x. record p { authentication_method = x }) _ s _
      (string-Gives s)
read_property-Change authentication_data p s =
    Once-Gives _ p.authentication_data (λ x. record p { authentication_data = x }) _ s _
      (binary-Gives s)
read_property-Change request_problem_information p s =
    Once-Gives _ p.request_problem_information (λ x. record p { request_problem_information = x }) _
      s _ (boolean-Gives s _)
read_property-Change will_delay_interval p s =
    Once-Gives _ p.will_delay_interval (λ x. record p { will_delay_interval = x }) _ s _
      (u32-Gives s _)
read_property-Change request_response_information p s =
    Once-Gives _ p.request_response_information (λ x. record p { request_response_information = x })
      _ s _ (boolean-Gives s _)
read_property-Change response_information p s =
    Once-Gives _ p.response_information (λ x. record p { response_information = x }) _ s _
      (string-Gives s)
read_property-Change server_reference p s =
    Once-Gives _ p.server_reference (λ x. record p { server_reference = x }) _ s _ (string-Gives s)
read_property-Change reason_string p s =
    Once-Gives _ p.reason_string (λ x. record p { reason_string = x }) _ s _ (string-Gives s)
read_property-Change receive_maximum p s =
    Once-Gives _ p.receive_maximum (λ x. record p { receive_maximum = x }) _ s _
      (checked-Gives not_zero _ _ s _ (u16-Gives s _))
read_property-Change topic_alias_maximum p s =
    Once-Gives _ p.topic_alias_maximum (λ x. record p { topic_alias_maximum = x }) _ s _
      (u16-Gives s _)
read_property-Change topic_alias p s =
    Once-Gives _ p.topic_alias (λ x. record p { topic_alias = x }) _ s _
      (checked-Gives not_zero _ _ s _ (u16-Gives s _))
read_property-Change maximum_qos p s =
    Once-Gives _ p.maximum_qos (λ x. record p { maximum_qos = x }) _ s _
      (checked-Gives at_most_one _ _ s _ (u8-Gives s _))
read_property-Change retain_available p s =
    Once-Gives _ p.retain_available (λ x. record p { retain_available = x }) _ s _
      (boolean-Gives s _)
read_property-Change user_property p s = user-Gives p s
read_property-Change maximum_packet_size p s =
    Once-Gives _ p.maximum_packet_size (λ x. record p { maximum_packet_size = x }) _ s _
      (checked-Gives not_zero _ _ s _ (u32-Gives s _))
read_property-Change wildcard_subscription_available p s =
    Once-Gives _ p.wildcard_subscription_available
      (λ x. record p { wildcard_subscription_available = x }) _ s _ (boolean-Gives s _)
read_property-Change subscription_identifier_available p s =
    Once-Gives _ p.subscription_identifier_available
      (λ x. record p { subscription_identifier_available = x }) _ s _ (boolean-Gives s _)
read_property-Change shared_subscription_available p s =
    Once-Gives _ p.shared_subscription_available
      (λ x. record p { shared_subscription_available = x }) _ s _ (boolean-Gives s _)
