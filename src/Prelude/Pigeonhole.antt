-- ===== src/Prelude/Pigeonhole.antt =====
-- Counting: a list without repetition is no longer than a list that holds all its members.
use Prim.Native.Nat.{ℕ, zero, suc, ◌+◌, ◌≤◌, ◌<◌}
use mathlib.Core.Path.{◌≡◌, refl}
use mathlib.Core.Logic.{inl, inr}
use mathlib.Core.Bool.{true, false}
use mathlib.Core.List.{List, [], ◌∷◌}
use native.Mathlib.Omega.{arith}
use openurma_gem5_lab.Prelude.Tests.{HasTest, ◌==◌, nat_eq, if◌then◌else◌, Bool-cases}
use openurma_gem5_lab.Prelude.Lists.{length, contains, Distinct, range_from}

module _ {ℓ} {A : Type ℓ} ⦃e : HasTest A⦄ where
  without : A → List A → List A
  without v [] = []
  without v (x ∷ xs) = let rest = without v xs in if x == v then rest else x ∷ rest

  contains-without :
      (v a : A) (xs : List A)
      → contains (without v xs) a ≡ (if v == a then false else contains xs a)
  unfolding without
  contains-without v a [] = ground arith
  contains-without v a (x ∷ xs) =
      ground (arith, contains-without v a xs, e.test_iff x v, e.test_iff v a, e.test_iff x a)

  Distinct-without : (v : A) (xs : List A) → Distinct xs → Distinct (without v xs)
  unfolding without
  Distinct-without v [] d = tt
  Distinct-without v (x ∷ xs) (fresh, d) =
      ground (arith, Distinct-without v xs d, contains-without v x xs)

  without-fresh : (v : A) (xs : List A) → contains xs v ≡ false → length (without v xs) ≡ length xs
  unfolding without
  without-fresh v [] h = refl
  without-fresh v (x ∷ xs) h = ground (arith, without-fresh v xs)

  length-without : (v : A) (xs : List A) → Distinct xs → length xs ≤ length (without v xs) + 1
  unfolding without
  length-without v [] d = omega arith
  length-without v (x ∷ xs) (fresh, d) =
      ground (arith, length-without v xs d, without-fresh v xs, e.test_iff x v)

  abbrev pub IsWithin : List A → List A → Type ℓ
  IsWithin xs ys = (a : A) → contains xs a ≡ true → contains ys a ≡ true

  within-nil : (x : A) (xs : List A) → IsWithin (x ∷ xs) [] → ⊥
  within-nil x xs w = ground (arith, w x, e.test_iff x x)

  IsWithin-without : (y : A) (xs ys : List A) → IsWithin xs (y ∷ ys) → IsWithin (without y xs) ys
  IsWithin-without y xs ys w a h = ground (arith, w a, contains-without y a xs)

  pub length-le_of_IsWithin :
      (ys xs : List A) → Distinct xs → IsWithin xs ys → length xs ≤ length ys
  length-le_of_IsWithin ys [] d w = omega arith
  length-le_of_IsWithin [] (x ∷ xs) d w = absurd (within-nil x xs w)
  length-le_of_IsWithin (y ∷ ys) (x ∷ xs) d w = omega (
    arith,
    length-without y (x ∷ xs) d,
    length-le_of_IsWithin ys (without y (x ∷ xs)) (Distinct-without y (x ∷ xs) d)
        (IsWithin-without y (x ∷ xs) ys w),
  )

  IsWithin-cons :
      (a : A) (xs ys : List A) → contains ys a ≡ true → IsWithin xs ys → IsWithin (a ∷ xs) ys
  IsWithin-cons a xs ys m w b h = ground (arith, w b, e.test_iff a b)

  -- If there are as many of them as the list has members, they are all of its members.
  pub contains_of_full :
      (ys xs : List A)
      → Distinct xs
      → IsWithin xs ys
      → length ys ≤ length xs
      → (a : A) → contains ys a ≡ true
      → contains xs a ≡ true
  contains_of_full ys xs d w full a m = elim (Bool-cases (contains xs a)) [
    | inl there ↦ there
    | inr fresh ↦
        absurd
          (omega (arith, length-le_of_IsWithin ys (a ∷ xs) (fresh, d) (IsWithin-cons a xs ys m w)))
  ]

pub contains-range_from : (s n i : ℕ) → s ≤ i → i < s + n → contains (range_from s n) i ≡ true
contains-range_from s zero i lo hi = absurd (omega arith)
contains-range_from s (suc n) i lo hi = elim (Bool-cases (s == i)) [
  | inl same ↦ ground arith
  | inr differ ↦ ground (arith, contains-range_from (suc s) n i (ground arith) (omega arith))
]
