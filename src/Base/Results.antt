-- ===== src/Base/Results.antt =====
-- `Result<A, E>` with `?` as bind.
use mathlib.Core.Path.{◌≡◌, refl, sym}
use mathlib.Core.Logic.{◌≢◌, ◌⊎◌, inl, inr}
use mathlib.Core.Bool.{Bool, true, false}

pub data Result {ℓ κ} (E : Type ℓ) (A : Type κ) : Type (ℓ ⊔ κ) where
  ok : A → Result E A
  err : E → Result E A

infixl 5 ◌>>=◌ ◌>>◌
abbrev pub ◌>>=◌ {ℓ κ μ} :
    {E : Type ℓ} {A : Type κ} {B : Type μ} → Result E A → (A → Result E B) → Result E B
ok a >>= f = f a
err x >>= f = err x

abbrev pub ◌>>◌ {ℓ μ} : {E : Type ℓ} {B : Type μ} → Result E (Unit {0}) → Result E B → Result E B
m >> k = m >>= λ _. k

-- `if !test { return Err(x) }`
abbrev pub ensure {ℓ} : {E : Type ℓ} → Bool → E → Result E (Unit {0})
ensure true x = ok tt
ensure false x = err x

pub Result-cases {ℓ κ} :
    {E : Type ℓ} {A : Type κ} (r : Result E A) → ((a : A) × (r ≡ ok a)) ⊎ ((x : E) × (r ≡ err x))
Result-cases (ok a) = inl (a, refl)
Result-cases (err x) = inr (x, refl)

pub ok_injective {ℓ κ} :
    {E : Type ℓ} {A : Type κ} {a b : A} → ◌≡◌ {A = Result E A} (ok a) (ok b) → a ≡ b
ok_injective e = cc

pub ok-ne-err {ℓ κ} :
    {E : Type ℓ} {A : Type κ} {a : A} {x : E} → ◌≢◌ {A = Result E A} (ok a) (err x)
ok-ne-err e = cc

-- What a successful bind went through, handed on to the rest of a proof.
pub through {ℓ κ μ ν} :
    {E : Type ℓ} {A : Type κ} {B : Type μ} {C : Type ν} (m : Result E A) (f : A → Result E B)
    {b : B}
    → (m >>= f) ≡ ok b
    → ((a : A) → m ≡ ok a → f a ≡ ok b → C)
    → C
through (ok a) f h next = next a refl h
through (err x) f h next = absurd (ok-ne-err (sym h))

-- A test that was passed.
pub passed {ℓ κ ν} :
    {E : Type ℓ} {B : Type κ} {C : Type ν} (test : Bool) (x : E) (m : Result E B) {b : B}
    → (ensure test x >> m) ≡ ok b
    → (test ≡ true → m ≡ ok b → C)
    → C
passed true x m h next = next refl h
passed false x m h next = absurd (ok-ne-err (sym h))
