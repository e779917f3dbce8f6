-- ===== src/Mqtt/V5/Properties/Accepted.antt =====
-- mqtt/src/v5/properties.rs: whatever bytes are read, the properties that come out are in range and allowed.
use yed_mq.Base.{
  List, [], ap, arith, drop, inl, inr, leb, length, ok, ok-ne-err, ok_injective, passed, subst, suc,
  sym, take, take-append-drop, through, true, zero, ℕ, ◌∷◌, ◌≡◌, ◌≢◌,
}
use yed_mq.Mqtt.Packet.{Properties, default_properties}
use yed_mq.Mqtt.V5.Primitives.{parse_variable_byte_integer}
use yed_mq.Mqtt.V5.Primitives.Taken.{Bytes, Gives-ok, Taken, Taken-Bytes, Taken-trans, varint-Gives}
use yed_mq.Mqtt.V5.Properties.Identifier.{
  PropertyScope, PropertyIdentifier, from_u32, allowed_on, payload_format_indicator,
}
use yed_mq.Mqtt.V5.Properties.Parse.{ensure_allowed, parse, parse_loop, read_property}
use yed_mq.Mqtt.V5.Properties.Encodable.{IsEncodable}
use yed_mq.Mqtt.V5.Properties.Changes.{Change, read_property-Change}
use yed_mq.Mqtt.V5.Properties.Present.{present, present-Change}
use yed_mq.Mqtt.V5.Properties.Ranges.{IsInRange, IsEncodable-Change, IsInRange-Change}

-- The values are in range, numbers that must not be 0 are not, and every property that is there may stand
-- in the packet.
pub record IsAccepted (scope : PropertyScope) (p : Properties) : Type 0 where
  pub encodable : IsEncodable p
  pub ranges : IsInRange p
  pub scoped : (i : PropertyIdentifier) → present i p ≡ true → allowed_on i scope ≡ true

Change-IsAccepted :
    (scope : PropertyScope) (i : PropertyIdentifier) (p p' : Properties)
    → allowed_on i scope ≡ true
    → Change i p p'
    → IsAccepted scope p
    → IsAccepted scope p'
Change-IsAccepted scope i p p' good c w = record {
  encodable = IsEncodable-Change i p p' c w.encodable;
  ranges = IsInRange-Change i p p' c w.ranges;
  scoped = λ j h. elim (present-Change i j p p' c h) [
    | inl same ↦ rw same good
    | inr before ↦ w.scoped j before
  ];
}

none_present : (i : PropertyIdentifier) → present i default_properties ≢ true
none_present payload_format_indicator h = cc
none_present i h = cc

default-IsAccepted : (scope : PropertyScope) → IsAccepted scope default_properties
default-IsAccepted scope = record {
  encodable = ground arith;
  ranges = ground arith;
  scoped = λ i h. absurd (none_present i h);
}

loop-IsAccepted :
    (fuel : ℕ) (scope : PropertyScope) (s : List ℕ) (p : Properties) {p' : Properties}
    → Bytes s
    → IsAccepted scope p
    → parse_loop fuel scope s p ≡ ok p'
    → IsAccepted scope p'
unfolding parse_loop ensure_allowed
loop-IsAccepted zero scope [] p h w e = subst (IsAccepted scope) (ok_injective e) w
loop-IsAccepted (suc fuel) scope [] p h w e = subst (IsAccepted scope) (ok_injective e) w
loop-IsAccepted zero scope (b ∷ s) p h w e = absurd (ok-ne-err (sym e))
loop-IsAccepted (suc fuel) scope (b ∷ s) p h w e =
    through (parse_variable_byte_integer (b ∷ s)) _ e λ r1 e1 e.
      through (from_u32 (r1.0)) _ e λ i e2 e. passed (allowed_on i scope) _ _ e λ good e.
        through (read_property i p (r1.1)) _ e λ r2 e3 e.
          let (taken1, _) = Gives-ok _ (b ∷ s) _ (varint-Gives (b ∷ s)) e1 in
          let bytes1 = Taken-Bytes (b ∷ s) (r1.1) taken1 h in
          let (taken2, change) =
            Gives-ok (Change i p) (r1.1) _ (read_property-Change i p (r1.1)) e3 in
          loop-IsAccepted fuel scope (r2.1) (r2.0) (Taken-Bytes (r1.1) (r2.1) taken2 bytes1)
            (Change-IsAccepted scope i p (r2.0) good (change bytes1) w) e

Bytes-take : (n : ℕ) (s : List ℕ) → Bytes s → Bytes (take n s)
Bytes-take zero s h = tt
Bytes-take (suc n) [] h = tt
Bytes-take (suc n) (b ∷ s) h = (h.0, Bytes-take n s h.1)

-- Whatever bytes are read as the properties of a packet: the values that come out fit their types, the
-- payload format indicator and the maximum QoS are 0 or 1, the numbers that must not be 0 are not, only
-- properties that may stand in the packet are there, and what is left is the end of the input.
pub parse-IsAccepted :
    (input : List ℕ) (scope : PropertyScope) {p : Properties} {rest : List ℕ}
    → Bytes input
    → parse input scope ≡ ok (p, rest)
    → IsAccepted scope p × Taken input rest
unfolding parse
parse-IsAccepted input scope {p} {rest} h e =
    through (parse_variable_byte_integer input) _ e λ r e1 e.
      passed (leb (r.0) (length (r.1))) _ _ e λ fits e.
        through (parse_loop (r.0) scope (take (r.0) (r.1)) default_properties) _ e λ q run e.
          let (taken, _) = Gives-ok _ input _ (varint-Gives input) e1 in
          let same = ok_injective e in
          let accepted =
            loop-IsAccepted (r.0) scope (take (r.0) (r.1)) default_properties
              (Bytes-take (r.0) (r.1) (Taken-Bytes input (r.1) taken h)) (default-IsAccepted scope)
              run in
          let cut : Taken (r.1) (drop (r.0) (r.1)) =
            (take (r.0) (r.1), sym (take-append-drop (r.0) (r.1))) in
          (
            subst (IsAccepted scope) (ap (λ x. x.0) same) accepted,
            subst (Taken input) (ap (λ x. x.1) same)
                (Taken-trans input (r.1) (drop (r.0) (r.1)) taken cut),
          )
