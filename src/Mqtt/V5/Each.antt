-- ===== src/Mqtt/V5/Each.antt =====
-- mqtt/src/v5: loops over reason codes and topics, up to the first error.
use yed_mq.Base.{
  All, List, Result, [], ap, arith, codes, err, length, length-append, map, ok, ok_injective, refl,
  suc, through, zero, ℕ, ◌++◌, ◌<◌, ◌>>=◌, ◌>>◌, ◌∷◌, ◌≡◌, ◌≤◌,
}
use yed_mq.Mqtt.V5.Primitives.{Mqtt5ParseError, incomplete, Parsed}
use yed_mq.Mqtt.V5.Primitives.Reading.{Reads}
use yed_mq.Mqtt.V5.Properties.Encode.{Written, write_all}

-- `.map(f).collect::<Result<Vec<_>, _>>()`
unfoldable pub try_map :
    {A B : Type 0} → (A → Result Mqtt5ParseError B) → List A → Result Mqtt5ParseError (List B)
try_map f [] = ok []
try_map f (x ∷ xs) = do y ← f x; ys ← try_map f xs; ok (y ∷ ys)

-- `for x in xs { f(x)?; }`
unfoldable pub check_all :
    {A : Type 0}
    → (A → Result Mqtt5ParseError (Unit {0}))
    → List A
    → Result Mqtt5ParseError (Unit {0})
check_all f [] = ok tt
check_all f (x ∷ xs) = do f x; check_all f xs

-- `while !input.is_empty()` around the parser of one item, on fuel: an item takes at least one byte.
unfoldable pub read_all :
    {A : Type 0} → (List ℕ → Parsed A) → ℕ → List ℕ → Result Mqtt5ParseError (List A)
read_all item _ [] = ok []
read_all item zero (b ∷ input) = err (incomplete (codes "topics"))
read_all item (suc fuel) (b ∷ input) = do
  (x, input) ← item (b ∷ input)
  xs ← read_all item fuel input
  ok (x ∷ xs)

-- What is checked one by one, written and read back one by one.
pub try_map-map :
    {A B : Type 0} (check : A → Result Mqtt5ParseError (Unit {0})) (write : A → B)
    (read : B → Result Mqtt5ParseError A) (seen : A → A)
    → ((a : A) → check a ≡ ok tt → read (write a) ≡ ok (seen a))
    → (xs : List A) → check_all check xs ≡ ok tt
    → try_map read (map write xs) ≡ ok (map seen xs)
unfolding try_map check_all
try_map-map check write read seen back [] e = refl
try_map-map check write read seen back (x ∷ xs) e =
    through (check x) _ e
      λ u checked e. rw (back x checked, try_map-map check write read seen back xs e) refl

read_one :
    {A : Type 0} (item : List ℕ → Parsed A) (fuel : ℕ) (x : A) (xs : List A) (bytes more : List ℕ)
    → 0 < length bytes
    → Reads item bytes x
    → read_all item fuel more ≡ ok xs
    → read_all item (suc fuel) (bytes ++ more) ≡ ok (x ∷ xs)
unfolding read_all
read_one item fuel x xs [] more pos read rest = absurd (omega arith)
read_one item fuel x xs (b ∷ bytes) more pos read rest = rw (read more, rest) refl

read_nothing : {A : Type 0} (item : List ℕ → Parsed A) (fuel : ℕ) → read_all item fuel [] ≡ ok []
unfolding read_all
read_nothing item zero = refl
read_nothing item (suc fuel) = refl

module _ {A : Type 0} (write : A → Written) (item : List ℕ → Parsed A) (Fits : A → Type 0)
    (back : (x : A) (bytes : List ℕ)
      → Fits x
      → write x ≡ ok bytes
      → (0 < length bytes) × Reads item bytes x) where
  -- Items that are written one by one are read back, on fuel for each byte.
  pub read_all-write_all :
      (xs : List A) (bytes : List ℕ) (fuel : ℕ)
      → All Fits xs
      → length bytes ≤ fuel
      → write_all (map write xs) ≡ ok bytes
      → read_all item fuel bytes ≡ ok xs
  unfolding write_all
  read_all-write_all [] bytes fuel fits enough e = rw (← ok_injective e) (read_nothing item fuel)
  read_all-write_all (x ∷ xs) bytes zero fits enough e = through (write x) _ e λ first written e.
      through (write_all (map write xs)) _ e λ more written' e. absurd (
        omega (
          arith,
          (back x first fits.0 written).0,
          length-append first more,
          ap length (ok_injective e),
        ))
  read_all-write_all (x ∷ xs) bytes (suc fuel) fits enough e =
      through (write x) _ e λ first written e.
        through (write_all (map write xs)) _ e λ more written' e.
          let (pos, read) = back x first fits.0 written in
          let room : length more ≤ fuel =
            omega (arith, length-append first more, ap length (ok_injective e), pos) in
          rw (← ok_injective e) (
            read_one item fuel x xs first more pos read
              (read_all-write_all xs more fuel fits.1 room written'))

-- Some item means some bytes.
pub write_all_pos :
    {A : Type 0} (write : A → Written) (xs : List A) {bytes : List ℕ}
    → ((x : A) (bytes : List ℕ) → write x ≡ ok bytes → 0 < length bytes)
    → write_all (map write xs) ≡ ok bytes
    → length xs ≤ length bytes
unfolding write_all
write_all_pos write [] pos e = omega arith
write_all_pos write (x ∷ xs) pos e = through (write x) _ e λ first written e.
    through (write_all (map write xs)) _ e λ more written' e. omega (
      arith,
      pos x first written,
      write_all_pos write xs pos written',
      length-append first more,
      ap length (ok_injective e),
    )
