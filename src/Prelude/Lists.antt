-- ===== src/Prelude/Lists.antt =====
-- Lists over the native numbers, and membership as a Boolean and as a predicate by recursion.
use Prim.Native.Nat.{ℕ, suc, ◌+◌, ◌<◌}
use mathlib.Core.Path.{◌≡◌, refl}
use mathlib.Core.Logic.{◌⊎◌, inl, inr}
use mathlib.Core.Bool.{Bool, true, false, not, ◌&&◌, ◌||◌}
use mathlib.Core.Option.{Option, none, some}
use mathlib.Core.List.{List, [], ◌∷◌, ◌++◌}
use native.Mathlib.Omega.{arith}
use perses.Prelude.Tests.{if◌then◌else◌}
use perses.Prelude.Classes.{Eq, ◌==◌}

module _ {ℓ} {A : Type ℓ} where
  abbrev pub length : List A → ℕ
  length [] = 0
  length (x ∷ xs) = suc (length xs)

  pub length-append : (xs ys : List A) → length (xs ++ ys) ≡ length xs + length ys
  length-append [] ys = omega arith
  length-append (x ∷ xs) ys = omega (arith, length-append xs ys)

-- The program's keys and records all live in `Type 0`.
module _ {A : Type 0} where
  -- Membership with its position, as a sum that the tactics take apart.
  abbrev pub In : A → List A → Type 0
  In a [] = ⊥
  In a (x ∷ xs) = (a ≡ x) ⊎ In a xs

  pub In-append_left : (a : A) (xs ys : List A) → In a xs → In a (xs ++ ys)
  In-append_left a [] ys h = absurd h
  In-append_left a (x ∷ xs) ys (inl e) = inl e
  In-append_left a (x ∷ xs) ys (inr h) = inr (In-append_left a xs ys h)

  pub In-append_right : (a : A) (xs ys : List A) → In a ys → In a (xs ++ ys)
  In-append_right a [] ys h = h
  In-append_right a (x ∷ xs) ys h = inr (In-append_right a xs ys h)

  pub In-append : (a : A) (xs ys : List A) → In a (xs ++ ys) → In a xs ⊎ In a ys
  In-append a [] ys h = inr h
  In-append a (x ∷ xs) ys (inl e) = inl (inl e)
  In-append a (x ∷ xs) ys (inr h) = elim (In-append a xs ys h) [
    | inl i ↦ inl (inr i)
    | inr j ↦ inr j
  ]

-- Each element satisfies `P`.
abbrev pub All {ℓ κ} : {A : Type ℓ} → (A → Type κ) → List A → Type κ
All P [] = Unit
All P (x ∷ xs) = P x × All P xs

pub All-In {κ} : {A : Type 0} (P : A → Type κ) (xs : List A) → All P xs → (a : A) → In a xs → P a
All-In P [] h a i = absurd i
All-In P (x ∷ xs) h a (inl e) = rw e h.0
All-In P (x ∷ xs) h a (inr i) = All-In P xs h.1 a i

module _ {A : Type 0} ⦃e : Eq A⦄ where
  -- slices.Contains
  unfoldable pub contains : List A → A → Bool
  contains [] a = false
  contains (x ∷ xs) a = x == a || contains xs a

  pub contains→In : (a : A) (xs : List A) → contains xs a ≡ true → In a xs
  unfolding contains
  contains→In a [] h = cc
  contains→In a (x ∷ xs) h = ground (arith, e.beq_iff x a, contains→In a xs)

  pub In→contains : (a : A) (xs : List A) → In a xs → contains xs a ≡ true
  unfolding contains
  In→contains a [] h = absurd h
  In→contains a (x ∷ xs) h = ground (arith, e.beq_iff x a, In→contains a xs)

  -- How often `a` occurs.
  unfoldable pub count : A → List A → ℕ
  count a [] = 0
  count a (x ∷ xs) = (if x == a then 1 else 0) + count a xs

  pub count-append : (a : A) (xs ys : List A) → count a (xs ++ ys) ≡ count a xs + count a ys
  unfolding count
  count-append a [] ys = omega arith
  count-append a (x ∷ xs) ys = omega (arith, count-append a xs ys)

  pub count_pos-In : (a : A) (xs : List A) → 0 < count a xs → In a xs
  unfolding count
  count_pos-In a [] h = absurd (omega arith)
  count_pos-In a (x ∷ xs) h = ground (arith, e.beq_iff x a, count_pos-In a xs)

  pub In-count_pos : (a : A) (xs : List A) → In a xs → 0 < count a xs
  unfolding count
  In-count_pos a [] h = absurd h
  In-count_pos a (x ∷ xs) h = ground (arith, e.beq_iff x a, In-count_pos a xs)

  -- No element occurs twice.
  unfoldable pub is_distinct : List A → Bool
  is_distinct [] = true
  is_distinct (x ∷ xs) = not (contains xs x) && is_distinct xs

  pub contains-append :
      (a : A) (xs ys : List A) → contains (xs ++ ys) a ≡ (contains xs a || contains ys a)
  unfolding contains
  contains-append a [] ys = refl
  contains-append a (x ∷ xs) ys = ground (arith, contains-append a xs ys)

  pub count-not_contains : (a : A) (xs : List A) → contains xs a ≡ false → count a xs ≡ 0
  unfolding contains count
  count-not_contains a [] h = refl
  count-not_contains a (x ∷ xs) h = ground (arith, count-not_contains a xs)

  pub count-is_distinct :
      (a : A) (xs : List A) → is_distinct xs ≡ true → count a xs ≡ (if contains xs a then 1 else 0)
  unfolding contains count is_distinct
  count-is_distinct a [] h = refl
  count-is_distinct a (x ∷ xs) h =
      ground (arith, count-is_distinct a xs, count-not_contains x xs, e.beq_iff x a)

  pub is_distinct-snoc :
      (a : A) (xs : List A)
      → is_distinct xs ≡ true
      → contains xs a ≡ false
      → is_distinct (xs ++ a ∷ []) ≡ true
  unfolding contains is_distinct
  is_distinct-snoc a [] h new = refl
  is_distinct-snoc a (x ∷ xs) h new =
      ground
        (arith, is_distinct-snoc a xs, contains-append x xs (a ∷ []), e.beq_iff x a, e.beq_iff a x)

-- A Go slice that may be nil; `range` and `len` treat nil as empty.
abbrev pub Slice {ℓ} : Type ℓ → Type ℓ
Slice A = Option (List A)

abbrev pub elems {ℓ} : {A : Type ℓ} → Slice A → List A
elems none = []
elems (some xs) = xs
