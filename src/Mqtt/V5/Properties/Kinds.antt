-- ===== src/Mqtt/V5/Properties/Kinds.antt =====
-- mqtt/src/v5/properties.rs: one round for each kind of value.
use yed_mq.Base.{
  Bool, List, Option, Text, [], append_assoc, if◌then◌else◌, none, ok, ok_injective, refl, some,
  subst, true, u16_max, u32_max, ℕ, ◌++◌, ◌∙◌, ◌∷◌, ◌≡◌, ◌≤◌,
}
use yed_mq.Mqtt.Packet.{Properties}
use yed_mq.Mqtt.V5.Primitives.{
  Parsed, encode_utf8_string, encode_variable_byte_integer, is_utf8, parse_binary, parse_boolean,
  parse_u16, parse_u32, parse_u8, parse_utf8_string, parse_variable_byte_integer, put_u16, put_u32,
}
use yed_mq.Mqtt.V5.Primitives.Reading.{
  Reads, binary-Reads, bool-Reads, string-Reads, u16-Reads, u32-Reads, u8-Reads, varint-Reads,
}
use yed_mq.Mqtt.V5.Properties.Identifier.{PropertyScope, PropertyIdentifier, name}
use yed_mq.Mqtt.V5.Properties.Parse.{
  at_most_one, checked, not_zero, parse, read_once, read_property,
}
use yed_mq.Mqtt.V5.Properties.Encode.{
  Written, encode_optional_binary, encode_optional_bool, encode_optional_string,
  encode_optional_u16, encode_optional_u32, encode_optional_u8,
}
use yed_mq.Mqtt.V5.Properties.Rounds.{Fills, IfSome, checked-Reads, optional-Fills, read_once-Reads}

-- `read_property` reads the identifier by this parser, into the field that `put` writes.
abbrev pub ReadsBy :
    {A : Type 0} → PropertyIdentifier → (Option A → Properties) → (List ℕ → Parsed A) → Type 0
ReadsBy identifier put parse =
    (s : List ℕ)
    → read_property identifier (put none) s ≡ read_once (name identifier) none put (parse s)

once :
    {A : Type 0} (identifier : PropertyIdentifier) (put : Option A → Properties)
    (parse : List ℕ → Parsed A) (bytes : List ℕ) (value : A)
    → ReadsBy identifier put parse
    → Reads parse bytes value
    → Reads (read_property identifier (put none)) bytes (put (some value))
once identifier put parse bytes value by read rest =
    by (bytes ++ rest) ∙ read_once-Reads (name identifier) put parse bytes value read rest

written-Reads :
    {A : Type 0} (f : List ℕ → Parsed A) (value : A) {written bytes : List ℕ}
    → ◌≡◌ {A = Written} (ok written) (ok bytes)
    → Reads f written value
    → Reads f bytes value
written-Reads f value {written} {bytes} e read = subst (λ b. Reads f b value) (ok_injective e) read

module _ (scope : PropertyScope) (identifier : PropertyIdentifier) where
  pub u16-Fills :
      (put : Option ℕ → Properties)
      (by : ReadsBy identifier put (λ s. parse_u16 s (name identifier))) (value : Option ℕ)
      → IfSome (λ v. v ≤ u16_max) value
      → (bytes : List ℕ) → encode_optional_u16 scope identifier value ≡ ok bytes
      → Fills scope (put none) bytes (put value)
  u16-Fills put by =
      optional-Fills _ scope identifier put (λ v. v ≤ u16_max)
        λ value bytes fits e.
          written-Reads (read_property identifier (put none)) (put (some value)) e (
            once identifier put _ (put_u16 value) value by (u16-Reads value (name identifier) fits))

  pub u32-Fills :
      (put : Option ℕ → Properties)
      (by : ReadsBy identifier put (λ s. parse_u32 s (name identifier))) (value : Option ℕ)
      → IfSome (λ v. v ≤ u32_max) value
      → (bytes : List ℕ) → encode_optional_u32 scope identifier value ≡ ok bytes
      → Fills scope (put none) bytes (put value)
  u32-Fills put by =
      optional-Fills _ scope identifier put (λ v. v ≤ u32_max)
        λ value bytes fits e.
          written-Reads (read_property identifier (put none)) (put (some value)) e (
            once identifier put _ (put_u32 value) value by (u32-Reads value (name identifier) fits))

  pub bool-Fills :
      (put : Option Bool → Properties)
      (by : ReadsBy identifier put (λ s. parse_boolean s (name identifier))) (value : Option Bool)
      → IfSome (λ v. Unit {0}) value
      → (bytes : List ℕ) → encode_optional_bool scope identifier value ≡ ok bytes
      → Fills scope (put none) bytes (put value)
  bool-Fills put by =
      optional-Fills _ scope identifier put (λ v. Unit {0})
        λ value bytes fits e.
          written-Reads (read_property identifier (put none)) (put (some value)) e (
            once identifier put _ ((if value then 1 else 0) ∷ []) value by
              (bool-Reads value (name identifier)))

  pub string-Fills :
      (put : Option Text → Properties) (by : ReadsBy identifier put (parse_utf8_string))
      (value : Option Text)
      → IfSome (λ v. is_utf8 v ≡ true) value
      → (bytes : List ℕ) → encode_optional_string scope identifier value ≡ ok bytes
      → Fills scope (put none) bytes (put value)
  string-Fills put by =
      optional-Fills _ scope identifier put (λ v. is_utf8 v ≡ true)
        λ value bytes fits e. once identifier put _ bytes value by (string-Reads value e fits)

  pub binary-Fills :
      (put : Option (List ℕ) → Properties) (by : ReadsBy identifier put (parse_binary))
      (value : Option (List ℕ))
      → IfSome (λ v. Unit {0}) value
      → (bytes : List ℕ) → encode_optional_binary scope identifier value ≡ ok bytes
      → Fills scope (put none) bytes (put value)
  binary-Fills put by =
      optional-Fills _ scope identifier put (λ v. Unit {0})
        λ value bytes fits e. once identifier put _ bytes value by (binary-Reads value e)

  pub small-Fills :
      (put : Option ℕ → Properties)
      (by : ReadsBy identifier put
        (λ s. checked at_most_one (name identifier) (parse_u8 s (name identifier))))
      (value : Option ℕ)
      → IfSome (λ v. Unit {0} × (at_most_one v ≡ true)) value
      → (bytes : List ℕ) → encode_optional_u8 scope identifier value ≡ ok bytes
      → Fills scope (put none) bytes (put value)
  small-Fills put by =
      optional-Fills _ scope identifier put (λ v. Unit {0} × (at_most_one v ≡ true))
        λ value bytes fits e.
          written-Reads (read_property identifier (put none)) (put (some value)) e (
            once identifier put _ (value ∷ []) value by (
              checked-Reads at_most_one (name identifier) (λ s. parse_u8 s (name identifier))
                (value ∷ []) value (u8-Reads value (name identifier)) fits.1))

  pub nonzero_u16-Fills :
      (put : Option ℕ → Properties)
      (by : ReadsBy identifier put
        (λ s. checked not_zero (name identifier) (parse_u16 s (name identifier))))
      (value : Option ℕ)
      → IfSome (λ v. (v ≤ u16_max) × (not_zero v ≡ true)) value
      → (bytes : List ℕ) → encode_optional_u16 scope identifier value ≡ ok bytes
      → Fills scope (put none) bytes (put value)
  nonzero_u16-Fills put by =
      optional-Fills _ scope identifier put (λ v. (v ≤ u16_max) × (not_zero v ≡ true))
        λ value bytes fits e.
          written-Reads (read_property identifier (put none)) (put (some value)) e (
            once identifier put _ (put_u16 value) value by (
              checked-Reads not_zero (name identifier) (λ s. parse_u16 s (name identifier))
                (put_u16 value) value (u16-Reads value (name identifier) fits.0) fits.1))

  pub nonzero_u32-Fills :
      (put : Option ℕ → Properties)
      (by : ReadsBy identifier put
        (λ s. checked not_zero (name identifier) (parse_u32 s (name identifier))))
      (value : Option ℕ)
      → IfSome (λ v. (v ≤ u32_max) × (not_zero v ≡ true)) value
      → (bytes : List ℕ) → encode_optional_u32 scope identifier value ≡ ok bytes
      → Fills scope (put none) bytes (put value)
  nonzero_u32-Fills put by =
      optional-Fills _ scope identifier put (λ v. (v ≤ u32_max) × (not_zero v ≡ true))
        λ value bytes fits e.
          written-Reads (read_property identifier (put none)) (put (some value)) e (
            once identifier put _ (put_u32 value) value by (
              checked-Reads not_zero (name identifier) (λ s. parse_u32 s (name identifier))
                (put_u32 value) value (u32-Reads value (name identifier) fits.0) fits.1))

pub any_value : {A : Type 0} (value : Option A) → IfSome (λ v. Unit {0}) value
any_value none = tt
any_value (some v) = tt

pub subscription_identifier-Reads :
    (p : Properties) (value : ℕ) (bytes : List ℕ)
    → not_zero value ≡ true
    → encode_variable_byte_integer value ≡ ok bytes
    → Reads
        (read_property PropertyIdentifier.subscription_identifier p)
        bytes
        (record p { subscription_identifiers = p.subscription_identifiers ++ value ∷ [] })
unfolding read_property
subscription_identifier-Reads p value bytes good e rest =
    rw
      (checked-Reads not_zero (name PropertyIdentifier.subscription_identifier)
        parse_variable_byte_integer bytes value (varint-Reads value e) good rest)
      refl

pub user_property-Reads :
    (p : Properties) (key value : Text) (first second : List ℕ)
    → encode_utf8_string key ≡ ok first
    → encode_utf8_string value ≡ ok second
    → is_utf8 key ≡ true
    → is_utf8 value ≡ true
    → Reads
        (read_property PropertyIdentifier.user_property p)
        (first ++ second)
        (record p { user_properties = p.user_properties ++ (key, value) ∷ [] })
unfolding read_property
user_property-Reads p key value first second e e' u u' rest =
    rw
      (
        append_assoc first second rest,
        string-Reads key e u (second ++ rest),
        string-Reads value e' u' rest,
      )
      refl
