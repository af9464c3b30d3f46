-- ===== src/Prelude/Entries.antt =====
-- The entries of a list that grows at its end.
use openurma_gem5_lab.Prelude.Lists.{length, get_elem?}
use Prim.Native.Nat.{ℕ, zero, suc}
use mathlib.Core.Path.{◌≡◌, refl, ap}
use mathlib.Core.Logic.{◌⊎◌, inl, inr}
use mathlib.Core.Option.{some}
use mathlib.Core.List.{List, [], ◌∷◌, ◌++◌}

pub get_elem?-snoc :
    {A : Type 0} (xs : List A) (x y : A) (k : ℕ)
    → get_elem? (xs ++ x ∷ []) k ≡ some y
    → (get_elem? xs k ≡ some y) ⊎ ((k ≡ length xs) × (x ≡ y))
get_elem?-snoc [] x y zero h = inr (refl, cc)
get_elem?-snoc [] x y (suc k) h = cc
get_elem?-snoc (z ∷ xs) x y zero h = inl h
get_elem?-snoc (z ∷ xs) x y (suc k) h = elim (get_elem?-snoc xs x y k h) [
  | inl old ↦ inl old
  | inr (last, same) ↦ inr (ap suc last, same)
]

pub get_elem?-front :
    {A : Type 0} (xs ys : List A) (k : ℕ) (y : A)
    → get_elem? xs k ≡ some y
    → get_elem? (xs ++ ys) k ≡ some y
get_elem?-front [] ys k y h = cc
get_elem?-front (x ∷ xs) ys zero y h = h
get_elem?-front (x ∷ xs) ys (suc k) y h = get_elem?-front xs ys k y h

pub get_elem?-behind :
    {A : Type 0} (xs ys : List A) → get_elem? (xs ++ ys) (length xs) ≡ get_elem? ys 0
get_elem?-behind [] ys = refl
get_elem?-behind (x ∷ xs) ys = get_elem?-behind xs ys

pub get_elem?-last :
    {A : Type 0} (xs : List A) (x : A) → get_elem? (xs ++ x ∷ []) (length xs) ≡ some x
get_elem?-last [] x = refl
get_elem?-last (y ∷ xs) x = get_elem?-last xs x
