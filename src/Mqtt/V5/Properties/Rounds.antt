-- ===== src/Mqtt/V5/Properties/Rounds.antt =====
-- mqtt/src/v5/properties.rs: one property that is written is one round of the reading loop.
use yed_mq.Base.{
  All, Bool, List, Option, Text, [], append-nil, append_assoc, arith, ensure, length, length-append,
  map, none, ok, ok_injective, passed, refl, some, suc, sym, through, true, zero, ℕ, ◌++◌, ◌<◌,
  ◌>>◌, ◌∙◌, ◌∷◌, ◌≡◌, ◌≤◌,
}
use yed_mq.Mqtt.Packet.{Properties}
use yed_mq.Mqtt.V5.Primitives.{Mqtt5ParseError, Parsed, parse_variable_byte_integer}
use yed_mq.Mqtt.V5.Primitives.Reading.{Reads, encode_inv, varint-Reads}
use yed_mq.Mqtt.V5.Properties.Identifier.{PropertyScope, PropertyIdentifier, as_u32, allowed_on}
use yed_mq.Mqtt.V5.Properties.Codes.{from_u32-as_u32}
use yed_mq.Mqtt.V5.Properties.Parse.{
  checked, ensure_allowed, parse, parse_loop, read_once, read_property, set_once,
}
use yed_mq.Mqtt.V5.Properties.Encode.{Written, encode_optional, holds, write_all, write_property_id}

-- A value that is present has the property.
abbrev pub IfSome {ℓ} : {A : Type 0} → (A → Type ℓ) → Option A → Type ℓ
IfSome P none = Unit
IfSome P (some value) = P value

-- From these bytes the loop goes from one state of the properties to another, and the fuel that is left
-- is enough for what follows.
abbrev pub Fills : PropertyScope → Properties → List ℕ → Properties → Type 0
Fills scope p bytes p' =
    (fuel : ℕ) (rest : List ℕ)
    → length (bytes ++ rest) ≤ fuel
    → (left : ℕ) × (length rest ≤ left)
      × (parse_loop fuel scope (bytes ++ rest) p ≡ parse_loop left scope rest p')

pub Fills-nil : (scope : PropertyScope) (p : Properties) → Fills scope p [] p
Fills-nil scope p fuel rest h = (fuel, h, refl)

pub Fills-append :
    (scope : PropertyScope) (p q r : Properties) (first second : List ℕ)
    → Fills scope p first q
    → Fills scope q second r
    → Fills scope p (first ++ second) r
Fills-append scope p q r first second f g fuel rest h = rw (append_assoc first second rest) (
    let (left, enough, e) = f fuel (second ++ rest) (rw (append_assoc first second rest) at h) in
    let (left', enough', e') = g left rest enough in (left', enough', e ∙ e'))

pub loop_step :
    (scope : PropertyScope) (identifier : PropertyIdentifier) (p p' : Properties) (fuel : ℕ)
    (code value rest : List ℕ)
    → allowed_on identifier scope ≡ true
    → 0 < length code
    → Reads parse_variable_byte_integer code (as_u32 identifier)
    → Reads (read_property identifier p) value p'
    → parse_loop (suc fuel) scope (code ++ (value ++ rest)) p ≡ parse_loop fuel scope rest p'
unfolding parse_loop ensure_allowed
loop_step scope identifier p p' fuel [] value rest good pos coded read = absurd (omega arith)
loop_step scope identifier p p' fuel (b ∷ code) value rest good pos coded read =
    rw (coded (value ++ rest), from_u32-as_u32 identifier, good, read rest) refl

-- An identifier that the packet may carry, with a value that is read, is one round.
pub property-Fills :
    (scope : PropertyScope) (identifier : PropertyIdentifier) (p p' : Properties) (value : List ℕ)
    {code : List ℕ}
    → write_property_id scope identifier ≡ ok code
    → Reads (read_property identifier p) value p'
    → Fills scope p (code ++ value) p'
unfolding write_property_id ensure_allowed
property-Fills scope identifier p p' value {code} e read zero rest h =
    passed (allowed_on identifier scope) _ _ e λ good e.
      let (_, pos, _) = encode_inv (as_u32 identifier) e in
      absurd (omega (arith, length-append (code ++ value) rest, length-append code value))
property-Fills scope identifier p p' value {code} e read (suc fuel) rest h =
    passed (allowed_on identifier scope) _ _ e λ good e.
      let (_, pos, _) = encode_inv (as_u32 identifier) e in
      (
        fuel,
        omega (arith, length-append (code ++ value) rest, length-append code value),
        rw (append_assoc code value rest) (
            loop_step scope identifier p p' fuel code value rest good pos
              (varint-Reads (as_u32 identifier) e) read),
      )

pub read_once-Reads :
    {A : Type 0} (property : Text) (write : Option A → Properties) (parse : List ℕ → Parsed A)
    (bytes : List ℕ) (value : A)
    → Reads parse bytes value
    → Reads (λ s. read_once property none write (parse s)) bytes (write (some value))
unfolding set_once
read_once-Reads property write parse bytes value read rest = rw (read rest) refl

pub checked-Reads :
    (test : ℕ → Bool) (property : Text) (parse : List ℕ → Parsed ℕ) (bytes : List ℕ) (value : ℕ)
    → Reads parse bytes value
    → test value ≡ true
    → Reads (λ s. checked test property (parse s)) bytes value
checked-Reads test property parse bytes value read good rest = rw (read rest, good) refl

module _ {A : Type 0} (write : A → Written) (scope : PropertyScope)
    (identifier : PropertyIdentifier) (put : Option A → Properties) (Fits : A → Type 0)
    (reads : (value : A) (bytes : List ℕ)
      → Fits value
      → write value ≡ ok bytes
      → Reads (read_property identifier (put none)) bytes (put (some value))) where
  pub optional-Fills :
      (value : Option A)
      → IfSome Fits value
      → (bytes : List ℕ) → encode_optional write scope identifier value ≡ ok bytes
      → Fills scope (put none) bytes (put value)
  unfolding encode_optional
  optional-Fills none fits bytes e = rw (← ok_injective e) (Fills-nil scope (put none))
  optional-Fills (some value) fits bytes e =
      through (write_property_id scope identifier) _ e λ code coded e.
        through (write value) _ e λ more written e. rw (← ok_injective e) (
          property-Fills scope identifier (put none) (put (some value)) more coded
            (reads value more fits written))

-- A test that the encoder makes first is known of the value.
pub tested :
    (test : ℕ → Bool) (Fits : ℕ → Type 0) (value : Option ℕ) (x : Mqtt5ParseError) (m : Written)
    {bytes : List ℕ}
    → IfSome Fits value
    → (ensure (holds test value) x >> m) ≡ ok bytes
    → IfSome (λ v. Fits v × (test v ≡ true)) value × (m ≡ ok bytes)
tested test Fits none x m fits e = (tt, e)
tested test Fits (some v) x m fits e = passed (test v) x m e λ good e. ((fits, good), e)

module _ {A : Type 0} (write : A → Written) (scope : PropertyScope) (put : List A → Properties)
    (Fits : A → Type 0)
    (fill : (seen : List A) (value : A) (bytes : List ℕ)
      → Fits value
      → write value ≡ ok bytes
      → Fills scope (put seen) bytes (put (seen ++ value ∷ []))) where
  pub each-Fills :
      (seen values : List A)
      → All Fits values
      → (bytes : List ℕ) → write_all (map write values) ≡ ok bytes
      → Fills scope (put seen) bytes (put (seen ++ values))
  unfolding write_all
  each-Fills seen [] fits bytes e =
      rw (← ok_injective e, append-nil seen) (Fills-nil scope (put seen))
  each-Fills seen (value ∷ values) fits bytes e = through (write value) _ e λ first written e.
      through (write_all (map write values)) _ e λ more rest_written e.
        let split : seen ++ value ∷ values ≡ (seen ++ value ∷ []) ++ values =
          sym (append_assoc seen (value ∷ []) values) in
        rw (← ok_injective e, split)
          (Fills-append scope (put seen) (put (seen ++ value ∷ []))
            (put ((seen ++ value ∷ []) ++ values)) first more (fill seen value first fits.0 written)
            (each-Fills (seen ++ value ∷ []) values fits.1 more rest_written))
