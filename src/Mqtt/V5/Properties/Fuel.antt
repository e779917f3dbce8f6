-- ===== src/Mqtt/V5/Properties/Fuel.antt =====
-- mqtt/src/v5/properties.rs: the fuel of the loop is enough.
use yed_mq.Base.{
  List, Result, Result-cases, [], ap, arith, err, inl, inr, length, ok, passed, refl, suc, through,
  zero, ℕ, ◌<◌, ◌>>=◌, ◌>>◌, ◌∙◌, ◌∷◌, ◌≡◌, ◌≤◌,
}
use yed_mq.Mqtt.Packet.{Properties}
use yed_mq.Mqtt.V5.Primitives.{Mqtt5ParseError, Parsed, parse_variable_byte_integer}
use yed_mq.Mqtt.V5.Primitives.Taken.{Gives-ok, Taken-length, varint_shorter}
use yed_mq.Mqtt.V5.Properties.Identifier.{PropertyScope, from_u32, allowed_on}
use yed_mq.Mqtt.V5.Properties.Parse.{ensure_allowed, parse_loop, read_property}
use yed_mq.Mqtt.V5.Properties.Changes.{Change, read_property-Change}

-- One round, up to the next one.
abbrev round : PropertyScope → List ℕ → Properties → Parsed Properties
round scope s p = do
  (value, s) ← parse_variable_byte_integer s
  identifier ← from_u32 value
  ensure_allowed identifier scope
  read_property identifier p s

round_shorter :
    (scope : PropertyScope) (s : List ℕ) (p : Properties) {p' : Properties} {rest : List ℕ}
    → round scope s p ≡ ok (p', rest)
    → length rest < length s
unfolding ensure_allowed
round_shorter scope s p {p'} {rest} e = through (parse_variable_byte_integer s) _ e λ r1 e1 e.
    through (from_u32 (r1.0)) _ e λ i e2 e. passed (allowed_on i scope) _ _ e λ good e.
      let (taken, _) = Gives-ok (Change i p) (r1.1) _ (read_property-Change i p (r1.1)) e in
      omega (arith, varint_shorter s e1, Taken-length (r1.1) rest taken)

loop_round :
    (fuel : ℕ) (scope : PropertyScope) (b : ℕ) (s : List ℕ) (p : Properties)
    → parse_loop (suc fuel) scope (b ∷ s) p
      ≡ (round scope (b ∷ s) p >>= λ r. parse_loop fuel scope (r.1) (r.0))
unfolding parse_loop
loop_round fuel scope b s p = elim (Result-cases (parse_variable_byte_integer (b ∷ s))) [
  | inr failed ↦ rw (failed.1) refl
  | inl first ↦ elim (Result-cases (from_u32 (first.0.0))) [
    | inr failed ↦ rw (first.1, failed.1) refl
    | inl code ↦ elim (Result-cases (ensure_allowed (code.0) scope)) [
      | inr failed ↦ rw (first.1, code.1, failed.1) refl
      | inl good ↦ rw (first.1, code.1, good.1) refl
    ]
  ]
]

-- The rounds of the loop one after the other, with no count: they are done where no byte is left, and
-- stop where one fails. A derivation is finite, and each round in it leaves fewer bytes.
pub data Ends (scope : PropertyScope)
    : List ℕ → Properties → Result Mqtt5ParseError Properties → Type 0 where
  done : (p : Properties) → Ends scope [] p (ok p)
  failed :
      (b : ℕ) (s : List ℕ) (p : Properties) (x : Mqtt5ParseError)
      → round scope (b ∷ s) p ≡ err x
      → Ends scope (b ∷ s) p (err x)
  next :
      (b : ℕ) (s : List ℕ) (p p' : Properties) (rest : List ℕ)
      (r : Result Mqtt5ParseError Properties)
      → round scope (b ∷ s) p ≡ ok (p', rest)
      → length rest < length (b ∷ s)
      → Ends scope rest p' r
      → Ends scope (b ∷ s) p r

step_fails :
    (fuel : ℕ) (scope : PropertyScope) (b : ℕ) (s : List ℕ) (p : Properties) (x : Mqtt5ParseError)
    → round scope (b ∷ s) p ≡ err x
    → parse_loop (suc fuel) scope (b ∷ s) p ≡ err x
step_fails fuel scope b s p x e =
    loop_round fuel scope b s p ∙ ap (λ m. m >>= λ r. parse_loop fuel scope (r.1) (r.0)) e

step_goes :
    (fuel : ℕ) (scope : PropertyScope) (b : ℕ) (s : List ℕ) (p : Properties) {p' : Properties}
    {rest : List ℕ}
    → round scope (b ∷ s) p ≡ ok (p', rest)
    → parse_loop (suc fuel) scope (b ∷ s) p ≡ parse_loop fuel scope rest p'
step_goes fuel scope b s p e =
    loop_round fuel scope b s p ∙ ap (λ m. m >>= λ r. parse_loop fuel scope (r.1) (r.0)) e

-- The loop over the properties ends by itself: from any bytes and any properties its rounds, each of
-- which leaves fewer bytes, come to an end, and with fuel of at least one round for each byte the loop
-- returns the result that they end with.
pub enough_rounds :
    (fuel : ℕ) (scope : PropertyScope) (s : List ℕ) (p : Properties)
    → length s ≤ fuel
    → Ends scope s p (parse_loop fuel scope s p)
enough_rounds fuel scope [] p h = unfold parse_loop in done p
enough_rounds zero scope (b ∷ s) p h = absurd (omega arith)
enough_rounds (suc fuel) scope (b ∷ s) p h = elim (Result-cases (round scope (b ∷ s) p)) [
  | inr (x, e) ↦ rw (step_fails fuel scope b s p x e) (failed b s p x e)
  | inl (r, e) ↦
      let shorter = round_shorter scope (b ∷ s) p e in
      rw (step_goes fuel scope b s p e) (
        next b s p (r.0) (r.1) _ e shorter
          (enough_rounds fuel scope (r.1) (r.0) (omega (arith, shorter))))
]
