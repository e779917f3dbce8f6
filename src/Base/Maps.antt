-- ===== src/Base/Maps.antt =====
-- `HashMap` as an association list. `insert` overwrites in place, `remove` deletes the key.
-- The order of the list stands for the unspecified order in which a `HashMap` iterates.
use Prim.Native.Nat.{ℕ, ◌+◌, ◌≤◌, ◌<◌}
use mathlib.Core.Path.{◌≡◌, refl}
use mathlib.Core.List.{List, [], ◌∷◌}
use mathlib.Core.Option.{Option, none, some}
use native.Mathlib.Omega.{arith}
use yed_mq.Base.Tests.{if◌then◌else◌, is_some}
use yed_mq.Base.Lists.{length}
use mathlib.Core.Bool.{true}
use yed_mq.Base.Keys.{Eq}

abbrev pub Map {ℓ κ} : Type ℓ → Type κ → Type (ℓ ⊔ κ)
Map K V = List (K × V)

module _ {ℓ κ} {K : Type ℓ} {V : Type κ} ⦃e : Eq K⦄ where
  unfoldable pub lookup : K → Map K V → Option V
  lookup k [] = none
  lookup k ((j, v) ∷ m) = if e.beq j k then some v else lookup k m

  unfoldable pub insert : K → V → Map K V → Map K V
  insert k v [] = (k, v) ∷ []
  insert k v ((j, w) ∷ m) = if e.beq j k then (k, v) ∷ m else (j, w) ∷ insert k v m

  unfoldable pub remove : K → Map K V → Map K V
  remove k [] = []
  remove k ((j, w) ∷ m) = let rest = remove k m in if e.beq j k then rest else (j, w) ∷ rest

  pub lookup-insert :
      (k j : K) (v : V) (m : Map K V)
      → lookup j (insert k v m) ≡ (if e.beq k j then some v else lookup j m)
  unfolding lookup insert
  lookup-insert k j v [] = refl
  lookup-insert k j v ((i, w) ∷ m) =
      ground (arith, e.beq_iff k j, e.beq_iff i k, e.beq_iff i j, lookup-insert k j v m)

  pub lookup-remove :
      (k j : K) (m : Map K V) → lookup j (remove k m) ≡ (if e.beq k j then none else lookup j m)
  unfolding lookup remove
  lookup-remove k j [] = ground arith
  lookup-remove k j ((i, w) ∷ m) =
      ground (arith, e.beq_iff k j, e.beq_iff i k, e.beq_iff i j, lookup-remove k j m)

  length-remove-le : (k : K) (m : Map K V) → length (remove k m) ≤ length m
  unfolding remove
  length-remove-le k [] = omega arith
  length-remove-le k ((i, w) ∷ m) = ground (arith, length-remove-le k m)

  pub length-remove-lt :
      (k : K) (m : Map K V) → is_some (lookup k m) ≡ true → length (remove k m) < length m
  unfolding remove lookup
  length-remove-lt k [] h = cc
  length-remove-lt k ((i, w) ∷ m) h = ground (arith, length-remove-lt k m, length-remove-le k m)

  -- No key stands twice, as in every `HashMap`.
  abbrev pub Distinct : Map K V → Type κ
  Distinct [] = Unit {κ}
  Distinct ((k, v) ∷ m) = (lookup k m ≡ none) × Distinct m

  pub Distinct-insert : (k : K) (v : V) (m : Map K V) → Distinct m → Distinct (insert k v m)
  unfolding insert
  Distinct-insert k v [] d = (unfold lookup in refl, tt)
  Distinct-insert k v ((i, w) ∷ m) d =
      ground (arith, e.beq_iff i k, e.beq_iff k i, lookup-insert k i v m, Distinct-insert k v m d.1)

  pub Distinct-remove : (k : K) (m : Map K V) → Distinct m → Distinct (remove k m)
  unfolding remove
  Distinct-remove k [] d = tt
  Distinct-remove k ((i, w) ∷ m) d = ground (arith, lookup-remove k i m, Distinct-remove k m d.1)

-- The sum of a measure over the values.
abbrev pub total {ℓ κ} : {K : Type ℓ} {V : Type κ} → (V → ℕ) → Map K V → ℕ
total f [] = 0
total f ((k, v) ∷ m) = f v + total f m

abbrev pub measure {κ} : {V : Type κ} → (V → ℕ) → Option V → ℕ
measure f none = 0
measure f (some v) = f v

module _ {ℓ κ} {K : Type ℓ} {V : Type κ} ⦃e : Eq K⦄ (f : V → ℕ) where
  pub total-insert :
      (k : K) (v : V) (m : Map K V)
      → total f (insert k v m) + measure f (lookup k m) ≡ total f m + f v
  unfolding lookup insert
  total-insert k v [] = omega arith
  total-insert k v ((i, w) ∷ m) = ground (arith, total-insert k v m)

  pub total-remove-le :
      (k : K) (m : Map K V) → total f (remove k m) + measure f (lookup k m) ≤ total f m
  unfolding lookup remove
  total-remove-le k [] = omega arith
  total-remove-le k ((i, w) ∷ m) = ground (arith, total-remove-le k m)

  remove_absent : (k : K) (m : Map K V) → lookup k m ≡ none → total f (remove k m) ≡ total f m
  unfolding lookup remove
  remove_absent k [] h = refl
  remove_absent k ((i, w) ∷ m) h = ground (arith, remove_absent k m)

  pub total-remove :
      (k : K) (m : Map K V) → Distinct m → total f (remove k m) + measure f (lookup k m) ≡ total f m
  unfolding lookup remove
  total-remove k [] d = omega arith
  total-remove k ((i, w) ∷ m) d =
      ground (arith, e.beq_iff i k, total-remove k m d.1, remove_absent k m)
