-- ===== src/Mqtt/V5/Reasoned/RoundTrip.antt =====
-- mqtt/src/v5/ack.rs, auth.rs, disconnect.rs: a reason code and properties are read back.
use yed_mq.Base.{
  Bool, Bool-cases, List, Result, Text, [], ap, append-nil, arith, false, inl, inr, length, ok,
  ok_injective, refl, through, true, ℕ, ◌<◌, ◌>>=◌, ◌^◌, ◌∷◌, ◌≡◌,
}
use yed_mq.Mqtt.Packet.{Properties, ReasonCode, default_properties}
use yed_mq.Mqtt.V5.Primitives.{Mqtt5ParseError}
use yed_mq.Mqtt.V5.ReasonCode.{encode}
use yed_mq.Mqtt.V5.Properties.Identifier.{PropertyScope}
use yed_mq.Mqtt.V5.Properties.Parse
use yed_mq.Mqtt.V5.Properties.Parse.{not_zero}
use yed_mq.Mqtt.V5.Properties.Encode
use yed_mq.Mqtt.V5.Properties.Encode.{Written}
use yed_mq.Mqtt.V5.Frame.{is_default}
use yed_mq.Mqtt.V5.Properties.Encodable.{IsEncodable}
use yed_mq.Mqtt.V5.Properties.RoundTrip.{properties_back, encode_pos}
use yed_mq.Mqtt.V5.Frame.RoundTrip.{is_default_lem}
use yed_mq.Mqtt.V5.Reasoned.{read_reason, write_reason}

present :
    (scope : PropertyScope) (omitted : Bool) (r : ReasonCode) (p : Properties) {bytes : List ℕ}
    → is_default p ≡ false
    → write_reason scope omitted r p ≡ ok bytes
    → (Encode.encode p scope >>= λ more. ok (encode r ∷ more)) ≡ ok bytes
unfolding write_reason
present scope true r p full e = rw full at e
present scope false r p full e = rw full at e

module _ (decode_code : ℕ → Result Mqtt5ParseError ReasonCode) (nothing : ReasonCode)
    (scope : PropertyScope) (context trailing : Text) where
  code_alone :
      (r r' : ReasonCode)
      → decode_code (encode r) ≡ ok r'
      → read_reason decode_code nothing scope context trailing (encode r ∷ [])
        ≡ ok (r', default_properties)
  unfolding read_reason
  code_alone r r' e = rw e refl

  code_and_properties :
      (r r' : ReasonCode) (p : Properties) (more : List ℕ)
      → decode_code (encode r) ≡ ok r'
      → Encode.encode p scope ≡ ok more
      → 0 < length more
      → IsEncodable p
      → length more < 2 ^ 32
      → read_reason decode_code nothing scope context trailing (encode r ∷ more) ≡ ok (r', p)
  unfolding read_reason
  code_and_properties r r' p [] e written pos w short = absurd (omega arith)
  code_and_properties r r' p (b ∷ more) e written pos w short =
      let back : Parse.parse (b ∷ more) scope ≡ ok (p, []) =
        rw (append-nil (b ∷ more)) at (properties_back p scope [] w short written) in
      rw (e, back) refl

  nothing_written :
      (r : ReasonCode)
      → read_reason decode_code nothing scope context trailing [] ≡ ok (nothing, default_properties)
  unfolding read_reason
  nothing_written r = refl

  pub reason_back :
      (omitted : Bool) (r r' : ReasonCode) (p : Properties) {bytes : List ℕ}
      → (omitted ≡ true → r' ≡ nothing)
      → decode_code (encode r) ≡ ok r'
      → IsEncodable p
      → length bytes < 2 ^ 32
      → write_reason scope omitted r p ≡ ok bytes
      → read_reason decode_code nothing scope context trailing bytes ≡ ok (r', p)
  unfolding write_reason
  reason_back omitted r r' p {bytes} same e w short written = elim (Bool-cases (is_default p)) [
    | inl plain ↦ elim (Bool-cases omitted) [
      | inl out ↦
          rw (← ok_injective (rw (out, plain) at written), same out, is_default_lem p plain)
            (nothing_written r)
      | inr kept ↦
          rw (← ok_injective (rw (kept, plain) at written), is_default_lem p plain)
            (code_alone r r' e)
    ]
    | inr full ↦
        through (Encode.encode p scope) _ (present scope omitted r p full written)
          λ more encoded e'.
            let same_bytes = ok_injective e' in
            let below : length more < 2 ^ 32 = omega (arith, ap length same_bytes, short) in
            rw (← same_bytes)
              (code_and_properties r r' p more e encoded (encode_pos p scope encoded) w below)
  ]
