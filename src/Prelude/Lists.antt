-- ===== src/Prelude/Lists.antt =====
-- Lists over the native numbers, membership by a test, and lists without repetition.
use Prim.Native.Nat.{ℕ, zero, suc, ◌+◌, ◌<◌}
use mathlib.Core.Path.{◌≡◌, refl, ap, sym, subst, ◌∙◌}
use mathlib.Core.Bool.{Bool, true, false, ◌||◌, ◌&&◌}
use mathlib.Core.List.{List, [], ◌∷◌, ◌++◌, map}
use mathlib.Core.Logic.{◌↔◌, inl, inr}
use mathlib.Core.Option.{Option, none, some}
use native.Mathlib.Omega.{arith}
use openurma_gem5_lab.Prelude.Tests.{HasTest, ◌==◌, if◌then◌else◌, Bool-cases}

module _ {ℓ} {A : Type ℓ} where
  abbrev pub length : List A → ℕ
  length [] = 0
  length (x ∷ xs) = suc (length xs)

  abbrev pub get_elem? : List A → ℕ → Option A
  get_elem? [] i = none
  get_elem? (x ∷ xs) zero = some x
  get_elem? (x ∷ xs) (suc i) = get_elem? xs i

  abbrev pub take : ℕ → List A → List A
  take zero xs = []
  take (suc n) [] = []
  take (suc n) (x ∷ xs) = x ∷ take n xs

  abbrev pub drop : ℕ → List A → List A
  drop zero xs = xs
  drop (suc n) [] = []
  drop (suc n) (x ∷ xs) = drop n xs

  pub length-append : (xs ys : List A) → length (xs ++ ys) ≡ length xs + length ys
  length-append [] ys = omega arith
  length-append (x ∷ xs) ys = omega (arith, length-append xs ys)

  -- `any(...)` and `all(...)`
  abbrev pub any : (A → Bool) → List A → Bool
  any p [] = false
  any p (x ∷ xs) = p x || any p xs

  abbrev pub all : (A → Bool) → List A → Bool
  all p [] = true
  all p (x ∷ xs) = p x && all p xs

  pub all-append : (p : A → Bool) (xs ys : List A) → all p (xs ++ ys) ≡ (all p xs && all p ys)
  all-append p [] ys = refl
  all-append p (x ∷ xs) ys = ground (arith, all-append p xs ys)

module _ {ℓ κ} {A : Type ℓ} where
  abbrev pub All : (A → Type κ) → List A → Type κ
  All P [] = Unit
  All P (x ∷ xs) = P x × All P xs

  pub All-append :
      (P : A → Type κ) (front back : List A) → All P front → All P back → All P (front ++ back)
  All-append P [] back h k = k
  All-append P (x ∷ front) back (first, others) k = (first, All-append P front back others k)

module _ {ℓ} {A : Type ℓ} where
  pub All_of_all : (p : A → Bool) (xs : List A) → all p xs ≡ true → All (λ x. p x ≡ true) xs
  All_of_all p [] h = tt
  All_of_all p (x ∷ xs) h = (ground arith, All_of_all p xs (ground arith))

  pub get_elem?-lt : (xs : List A) (k : ℕ) (x : A) → get_elem? xs k ≡ some x → k < length xs
  get_elem?-lt [] k x h = absurd (cc)
  get_elem?-lt (y ∷ xs) zero x h = omega arith
  get_elem?-lt (y ∷ xs) (suc k) x h = omega (arith, get_elem?-lt xs k x h)

-- `range(start, start + count)`
abbrev pub range_from : ℕ → ℕ → List ℕ
range_from start zero = []
range_from start (suc count) = start ∷ range_from (suc start) count

pub length-range_from : (s n : ℕ) → length (range_from s n) ≡ n
length-range_from s zero = refl
length-range_from s (suc n) = ap suc (length-range_from (suc s) n)

pub length-map {ℓ κ} :
    {A : Type ℓ} {B : Type κ} (f : A → B) (xs : List A) → length (map f xs) ≡ length xs
length-map f [] = refl
length-map f (x ∷ xs) = ap suc (length-map f xs)

module _ {ℓ} {A : Type ℓ} ⦃e : HasTest A⦄ where
  abbrev pub contains : List A → A → Bool
  contains [] a = false
  contains (x ∷ xs) a = x == a || contains xs a

  -- `values.add(a)` of a set that is kept as a list
  abbrev pub set_add : List A → A → List A
  set_add xs a = if contains xs a then xs else xs ++ a ∷ []

  -- No value stands twice.
  abbrev pub Distinct : List A → Type 0
  Distinct [] = Unit
  Distinct (x ∷ xs) = (contains xs x ≡ false) × Distinct xs

  -- `len(set(xs)) != len(xs)`
  unfoldable pub has_repeat : List A → Bool
  has_repeat [] = false
  has_repeat (x ∷ xs) = contains xs x || has_repeat xs

  pub Distinct-has_repeat : (xs : List A) → has_repeat xs ≡ false → Distinct xs
  unfolding has_repeat
  Distinct-has_repeat [] h = tt
  Distinct-has_repeat (x ∷ xs) h = (ground arith, Distinct-has_repeat xs (ground arith))

  pub contains-append :
      (xs ys : List A) (a : A) → contains (xs ++ ys) a ≡ (contains xs a || contains ys a)
  contains-append [] ys a = refl
  contains-append (x ∷ xs) ys a = ground (arith, contains-append xs ys a)

  pub Distinct-snoc :
      (xs : List A) (a : A) → contains xs a ≡ false → Distinct xs → Distinct (xs ++ a ∷ [])
  Distinct-snoc [] a h d = (refl, tt)
  Distinct-snoc (x ∷ xs) a h d = (
    ground (arith, contains-append xs (a ∷ []) x, e.test_iff x a, e.test_iff a x),
    Distinct-snoc xs a (ground arith) d.1,
  )

  -- `values.index(a)`, which is the length where the source would raise `ValueError`.
  abbrev pub index_of : A → List A → ℕ
  index_of a [] = 0
  index_of a (x ∷ xs) = if x == a then 0 else suc (index_of a xs)

  pub index_of-lt : (a : A) (xs : List A) → contains xs a ≡ true → index_of a xs < length xs
  index_of-lt a [] h = cc
  index_of-lt a (x ∷ xs) h = ground (arith, index_of-lt a xs)

  pub index_of-injective :
      (a b : A) (xs : List A)
      → contains xs a ≡ true
      → contains xs b ≡ true
      → index_of a xs ≡ index_of b xs
      → a ≡ b
  index_of-injective a b [] ha hb h = cc
  index_of-injective a b (x ∷ xs) ha hb h =
      ground (arith, e.test_iff x a, e.test_iff x b, index_of-injective a b xs)

module _ {ℓ} {A : Type ℓ} ⦃e : HasTest A⦄ where
  abbrev list_test : List A → List A → Bool
  list_test [] [] = true
  list_test (x ∷ xs) (y ∷ ys) = e.test x y && list_test xs ys
  list_test _ _ = false

  pub list_test_iff : (xs ys : List A) → (list_test xs ys ≡ true) ↔ (xs ≡ ys)
  list_test_iff [] [] = ground arith
  list_test_iff [] (y ∷ ys) = ground arith
  list_test_iff (x ∷ xs) [] = ground arith
  list_test_iff (x ∷ xs) (y ∷ ys) = ground (arith, e.test_iff x y, list_test_iff xs ys)

  instance abbrev pub list_eq : HasTest (List A)
  list_eq = record { test = list_test; test_iff = list_test_iff }

module _ {ℓ κ} {A : Type ℓ} {B : Type κ} ⦃d : HasTest A⦄ ⦃e : HasTest B⦄ where
  contains-map :
      (f : A → B) (xs : List A) (x : A) → contains xs x ≡ true → contains (map f xs) (f x) ≡ true
  contains-map f [] x h = cc
  contains-map f (y ∷ xs) x h = elim (Bool-cases (y == x)) [
    | inl same ↦
        let image : (f y == f x) ≡ true =
          (e.test_iff (f y) (f x)).1 (ap f ((d.test_iff y x).0 same)) in
        ground arith
    | inr other ↦
        let rest : contains (map f xs) (f x) ≡ true = contains-map f xs x (ground arith) in
        ground arith
  ]

  -- Distinct images come of distinct values.
  pub has_repeat-map :
      (f : A → B) (xs : List A) → has_repeat (map f xs) ≡ false → has_repeat xs ≡ false
  unfolding has_repeat
  has_repeat-map f [] h = refl
  has_repeat-map f (x ∷ xs) h = ground (arith, contains-map f xs x, has_repeat-map f xs)

  -- A function with distinct images of a list tells its members apart.
  pub same_image :
      (f : A → B) (xs : List A) (a b : A)
      → has_repeat (map f xs) ≡ false
      → contains xs a ≡ true
      → contains xs b ≡ true
      → f a ≡ f b
      → a ≡ b
  unfolding has_repeat
  same_image f [] a b h ha hb same = cc
  same_image f (x ∷ xs) a b h ha hb same = elim (Bool-cases (x == a)) [
    | inl left ↦ elim (Bool-cases (x == b)) [
      | inl right ↦ ground (arith, d.test_iff x a, d.test_iff x b)
      | inr right ↦
          let e : f b ≡ f x = sym same ∙ ap f (sym ((d.test_iff x a).0 left)) in
          let k : contains (map f xs) (f x) ≡ true =
            subst (λ y. contains (map f xs) y ≡ true) e (contains-map f xs b (ground arith)) in
          absurd (ground arith)
    ]
    | inr left ↦ elim (Bool-cases (x == b)) [
      | inl right ↦
          let e : f a ≡ f x = same ∙ ap f (sym ((d.test_iff x b).0 right)) in
          let k : contains (map f xs) (f x) ≡ true =
            subst (λ y. contains (map f xs) y ≡ true) e (contains-map f xs a (ground arith)) in
          absurd (ground arith)
      | inr right ↦ same_image f xs a b (ground arith) (ground arith) (ground arith) same
    ]
  ]

module _ {ℓ} {A : Type ℓ} ⦃e : HasTest A⦄ where
  pub contains-middle :
      (xs ys zs : List A) (a : A) → contains ys a ≡ true → contains (xs ++ ys ++ zs) a ≡ true
  contains-middle xs ys zs a h =
      ground (arith, contains-append (xs ++ ys) zs a, contains-append xs ys a)

  -- What holds of all members of a list holds of each.
  pub All_at {κ} : (P : A → Type κ) (xs : List A) (a : A) → All P xs → contains xs a ≡ true → P a
  All_at P [] a all_hold h = absurd (cc)
  All_at P (x ∷ xs) a (first, rest) h = elim (Bool-cases (x == a)) [
    | inl here ↦ subst P ((e.test_iff x a).0 here) first
    | inr later ↦ All_at P xs a rest (ground arith)
  ]
