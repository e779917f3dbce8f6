-- ===== src/Mqtt/V5/Primitives/Taken.antt =====
-- mqtt/src/v5/common.rs: a parser takes its value from the front of its input.
use yed_mq.Base.{
  ok_injective, All, Bool-cases, List, Text, [], ap, append_assoc, arith, drop, err, inl, inr,
  length, length-append, ltb, ok, ok-ne-err, refl, subst, suc, sym, take, take-append-drop, true,
  u16_max, u32_max, zero, ℕ, ◌%◌, ◌*◌, ◌++◌, ◌+◌, ◌/◌, ◌<◌, ◌==◌, ◌^◌, ◌∙◌, ◌∷◌, ◌≡◌, ◌≤◌,
}
use yed_mq.Mqtt.V5.Primitives.{
  Parsed, as_boolean, as_utf8, cut_at, is_utf8, parse_binary, parse_boolean, parse_rounds,
  parse_u16, parse_u32, parse_u8, parse_utf8_string, parse_variable_byte_integer,
}

abbrev pub Bytes : List ℕ → Type 0
Bytes s = All (λ b. b < 256) s

abbrev pub Utf8 : Text → Type 0
Utf8 s = is_utf8 s ≡ true

-- What is left is the input without some of its first bytes.
abbrev pub Taken : List ℕ → List ℕ → Type 0
Taken s rest = (used : List ℕ) × (s ≡ used ++ rest)

pub Taken-trans : (a b c : List ℕ) → Taken a b → Taken b c → Taken a c
Taken-trans a b c (u, e) (v, f) = (u ++ v, e ∙ ap (λ x. u ++ x) f ∙ sym (append_assoc u v c))

pub Taken-length : (s rest : List ℕ) → Taken s rest → length rest ≤ length s
Taken-length s rest (used, e) = omega (arith, ap length e, length-append used rest)

All-behind : (used rest : List ℕ) → Bytes (used ++ rest) → Bytes rest
All-behind [] rest h = h
All-behind (b ∷ used) rest h = All-behind used rest h.1

pub Taken-Bytes : (s rest : List ℕ) → Taken s rest → Bytes s → Bytes rest
Taken-Bytes s rest (used, e) h = All-behind used rest (subst Bytes e h)

-- What a parser gives: a value that has a property where the input is bytes, and what is left.
abbrev pub Gives : {A : Type 0} → (A → Type 0) → List ℕ → Parsed A → Type 0
Gives P s (ok (value, rest)) = Taken s rest × (Bytes s → P value)
Gives P s (err x) = Unit

pub Gives-ok :
    {A : Type 0} (P : A → Type 0) (s : List ℕ) (m : Parsed A) {value : A} {rest : List ℕ}
    → Gives P s m
    → m ≡ ok (value, rest)
    → Taken s rest × (Bytes s → P value)
Gives-ok P s m g e = rw e at g

pub u8-Gives : (s : List ℕ) (context : Text) → Gives (λ v. v < 256) s (parse_u8 s context)
unfolding parse_u8
u8-Gives [] context = tt
u8-Gives (a ∷ s) context = ((a ∷ [], refl), λ h. h.0)

pub u16-Gives : (s : List ℕ) (context : Text) → Gives (λ v. v ≤ u16_max) s (parse_u16 s context)
unfolding parse_u16
u16-Gives [] context = tt
u16-Gives (a ∷ []) context = tt
u16-Gives (a ∷ b ∷ s) context = ((a ∷ b ∷ [], refl), λ h. omega (arith, h.0, h.1.0))

pub u32-Gives : (s : List ℕ) (context : Text) → Gives (λ v. v ≤ u32_max) s (parse_u32 s context)
unfolding parse_u32
u32-Gives [] context = tt
u32-Gives (a ∷ []) context = tt
u32-Gives (a ∷ b ∷ []) context = tt
u32-Gives (a ∷ b ∷ c ∷ []) context = tt
u32-Gives (a ∷ b ∷ c ∷ d ∷ s) context =
    ((a ∷ b ∷ c ∷ d ∷ [], refl), λ h. omega (arith, h.0, h.1.0, h.1.1.0, h.1.1.1.0))

cut_at-Gives :
    (s : List ℕ) (m : Parsed ℕ) → Gives (λ v. v ≤ u16_max) s m → Gives (λ v. Unit {0}) s (cut_at m)
cut_at-Gives s (err x) g = tt
cut_at-Gives s (ok (n, rest)) g = elim (Bool-cases (ltb (length rest) n)) [
  | inl long ↦ rw long tt
  | inr fits ↦
      rw fits
        (Taken-trans s rest (drop n rest) g.0 (take n rest, sym (take-append-drop n rest)), λ h. tt)
]

pub binary-Gives : (s : List ℕ) → Gives (λ v. Unit {0}) s (parse_binary s)
unfolding parse_binary
binary-Gives s = cut_at-Gives s _ (u16-Gives s _)

as_utf8-Gives :
    (s : List ℕ) (m : Parsed (List ℕ)) → Gives (λ v. Unit {0}) s m → Gives Utf8 s (as_utf8 m)
as_utf8-Gives s (err x) g = tt
as_utf8-Gives s (ok (v, rest)) g = elim (Bool-cases (is_utf8 v)) [
  | inl good ↦ rw good (g.0, λ h. good)
  | inr bad ↦ rw bad tt
]

pub string-Gives : (s : List ℕ) → Gives Utf8 s (parse_utf8_string s)
unfolding parse_utf8_string
string-Gives s = as_utf8-Gives s _ (binary-Gives s)

as_boolean-Gives :
    (s : List ℕ) (property : Text) (m : Parsed ℕ)
    → Gives (λ v. v < 256) s m
    → Gives (λ v. Unit {0}) s (as_boolean property m)
as_boolean-Gives s property (err x) g = tt
as_boolean-Gives s property (ok (v, rest)) g = elim (Bool-cases (v == 0)) [
  | inl null ↦ rw null (g.0, λ h. tt)
  | inr other ↦ elim (Bool-cases (v == 1)) [
    | inl one ↦ rw (other, one) (g.0, λ h. tt)
    | inr more ↦ rw (other, more) tt
  ]
]

pub boolean-Gives :
    (s : List ℕ) (property : Text) → Gives (λ v. Unit {0}) s (parse_boolean s property)
unfolding parse_boolean
boolean-Gives s property = as_boolean-Gives s property _ (u8-Gives s property)

more_taken :
    (b : ℕ) (s : List ℕ) (m : Parsed ℕ)
    → Gives (λ v. v < 2 ^ 32) s m
    → Gives (λ v. v < 2 ^ 32) (b ∷ s) m
more_taken b s (err x) g = tt
more_taken b s (ok (v, rest)) ((used, e), h) = ((b ∷ used, ap (◌∷◌ b) e), λ k. h (k.1))

rounds-Gives :
    (rounds : ℕ) (s : List ℕ) (value multiplier : ℕ)
    → Gives (λ v. v < 2 ^ 32) s (parse_rounds rounds s value multiplier)
unfolding parse_rounds
rounds-Gives zero s value multiplier = tt
rounds-Gives (suc rounds) [] value multiplier = tt
rounds-Gives (suc rounds) (b ∷ s) value multiplier =
    let v' = (value + b % 128 * multiplier) % 2 ^ 32 in
    let rest = more_taken b s _ (rounds-Gives rounds s v' (multiplier * 128 % 2 ^ 32)) in
    elim (Bool-cases (b / 128 % 2 == 0)) [
      | inl last ↦ rw last ((b ∷ [], refl), λ h. grind arith)
      | inr more ↦ rw more rest
    ]

pub varint-Gives : (s : List ℕ) → Gives (λ v. v < 2 ^ 32) s (parse_variable_byte_integer s)
unfolding parse_variable_byte_integer
varint-Gives s = rounds-Gives 4 s 0 1

rounds_shorter :
    (rounds : ℕ) (s : List ℕ) (value multiplier : ℕ) {v : ℕ} {rest : List ℕ}
    → parse_rounds rounds s value multiplier ≡ ok (v, rest)
    → length rest < length s
unfolding parse_rounds
rounds_shorter zero s value multiplier e = absurd (ok-ne-err (sym e))
rounds_shorter (suc rounds) [] value multiplier e = absurd (ok-ne-err (sym e))
rounds_shorter (suc rounds) (b ∷ s) value multiplier {v} {rest} e =
    elim (Bool-cases (b / 128 % 2 == 0)) [
      | inl last ↦
          let same = ap (λ x. length (x.1)) (ok_injective (rw last at e)) in omega (arith, same)
      | inr more ↦
          let shorter =
            rounds_shorter rounds s ((value + b % 128 * multiplier) % 2 ^ 32)
              (multiplier * 128 % 2 ^ 32) (rw more at e) in
          omega (arith, shorter)
    ]

pub varint_shorter :
    (s : List ℕ) {v : ℕ} {rest : List ℕ}
    → parse_variable_byte_integer s ≡ ok (v, rest)
    → length rest < length s
unfolding parse_variable_byte_integer
varint_shorter s e = rounds_shorter 4 s 0 1 e
