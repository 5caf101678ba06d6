-- ===== src/Prelude/GoMap.antt =====
-- Go's `map[K]V` as an association list without repeated keys. The order of the list stands for
-- the order in which `range` visits the entries; a theorem for every list holds for every order.
use perses.Prelude.Tests.{if◌then◌else◌, Bool-cases}
use perses.Prelude.Classes.{Eq, ◌==◌}
use perses.Prelude.Lists.{In, contains, is_distinct, is_distinct-snoc}
use mathlib.Core.Bool.{Bool, true, false, ◌||◌}
use mathlib.Core.Path.{◌≡◌, refl}
use mathlib.Core.Logic.{inl, inr}
use mathlib.Core.Option.{Option, none, some}
use mathlib.Core.List.{List, [], ◌∷◌, ◌++◌}
use native.Mathlib.Omega.{arith}

abbrev pub GoMap {ℓ κ} : Type ℓ → Type κ → Type (ℓ ⊔ κ)
GoMap K V = List (K × V)

-- The keys, in the order of `range`.
abbrev pub keys {ℓ κ} : {K : Type ℓ} {V : Type κ} → GoMap K V → List K
keys [] = []
keys ((k, v) ∷ m) = k ∷ keys m

module _ {ℓ κ} {K : Type ℓ} {V : Type κ} ⦃e : Eq K⦄ where
  -- v, ok := m[k]
  unfoldable pub lookup : K → GoMap K V → Option V
  lookup k [] = none
  lookup k ((j, v) ∷ m) = if j == k then some v else lookup k m

  -- m[k] = v
  unfoldable pub insert : K → V → GoMap K V → GoMap K V
  insert k v [] = (k, v) ∷ []
  insert k v ((j, w) ∷ m) = if j == k then (k, v) ∷ m else (j, w) ∷ insert k v m

  -- delete(m, k)
  unfoldable pub delete : K → GoMap K V → GoMap K V
  delete k [] = []
  delete k ((j, w) ∷ m) = let rest = delete k m in if j == k then rest else (j, w) ∷ rest

  pub lookup-nil : (k : K) → lookup k [] ≡ none
  unfolding lookup
  lookup-nil k = refl

  pub lookup-insert :
      (key other : K) (value : V) (m : GoMap K V)
      → lookup other (insert key value m) ≡ (if key == other then some value else lookup other m)
  unfolding lookup insert
  lookup-insert key other value [] = refl
  lookup-insert key other value ((i, w) ∷ m) = ground (
    arith,
    lookup-insert key other value m,
    e.beq_iff i other,
    e.beq_iff i key,
    e.beq_iff key other,
  )

  pub lookup-delete :
      (k j : K) (m : GoMap K V) → lookup j (delete k m) ≡ (if k == j then none else lookup j m)
  unfolding lookup delete
  lookup-delete k j [] = ground arith
  lookup-delete k j ((i, w) ∷ m) =
      ground (arith, e.beq_iff k j, e.beq_iff i k, e.beq_iff i j, lookup-delete k j m)

module _ {κ} {K : Type 0} {V : Type κ} ⦃e : Eq K⦄ where
  pub lookup-In : (k : K) (m : GoMap K V) (v : V) → lookup k m ≡ some v → In k (keys m)
  unfolding lookup
  lookup-In k [] v h = cc
  lookup-In k ((j, w) ∷ m) v h = ground (arith, e.beq_iff j k, lookup-In k m v)

  -- No key stands twice, which holds of every Go map.
  abbrev pub is_map : GoMap K V → Bool
  is_map m = is_distinct (keys m)

  pub lookup-none : (k : K) (m : GoMap K V) → contains (keys m) k ≡ false → lookup k m ≡ none
  unfolding lookup contains
  lookup-none k [] h = refl
  lookup-none k ((j, w) ∷ m) h = ground (arith, lookup-none k m)

  pub keys-insert :
      (k : K) (v : V) (m : GoMap K V)
      → keys (insert k v m) ≡ (if contains (keys m) k then keys m else keys m ++ k ∷ [])
  unfolding insert contains
  keys-insert k v [] = refl
  keys-insert k v ((j, w) ∷ m) = ground (arith, keys-insert k v m, e.beq_iff j k)

  pub contains-keys :
      (k : K) (m : GoMap K V)
      → contains (keys m) k ≡ elim (lookup k m) [ none ↦ false | some _ ↦ true ]
  unfolding lookup contains
  contains-keys k [] = refl
  contains-keys k ((j, w) ∷ m) = ground (arith, contains-keys k m)

  pub contains-keys-insert :
      (k j : K) (v : V) (m : GoMap K V)
      → contains (keys (insert k v m)) j ≡ (k == j || contains (keys m) j)
  contains-keys-insert k j v m =
      ground (arith, contains-keys j m, contains-keys j (insert k v m), lookup-insert k j v m)

  pub is_map-insert :
      (k : K) (v : V) (m : GoMap K V) → is_map m ≡ true → is_map (insert k v m) ≡ true
  is_map-insert k v m h = elim (Bool-cases (contains (keys m) k)) [
    | inl c ↦ ground (arith, keys-insert k v m)
    | inr c ↦ ground (arith, keys-insert k v m, is_distinct-snoc k (keys m))
  ]
