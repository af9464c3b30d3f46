-- ===== src/Prelude/Dict.antt =====
-- Python's `dict` as a list of entries, the keys in insertion order.
use openurma_gem5_lab.Prelude.Tests.{HasTest, ◌==◌, if◌then◌else◌, Option-cases}
use openurma_gem5_lab.Prelude.Lists.{length, contains, Distinct}
use Prim.Native.Nat.{suc}
use mathlib.Core.Path.{◌≡◌, refl, ap}
use mathlib.Core.Bool.{Bool, true, false}
use mathlib.Core.Logic.{◌≢◌, inl, inr}
use mathlib.Core.Option.{Option, none, some}
use mathlib.Core.List.{List, [], ◌∷◌}
use native.Mathlib.Omega.{arith}

abbrev pub Dict {ℓ κ} : Type ℓ → Type κ → Type (ℓ ⊔ κ)
Dict K V = List (K × V)

abbrev pub keys {ℓ κ} : {K : Type ℓ} {V : Type κ} → Dict K V → List K
keys [] = []
keys ((k, v) ∷ d) = k ∷ keys d

module _ {ℓ κ} {K : Type ℓ} {V : Type κ} ⦃e : HasTest K⦄ where
  -- `d.get(k)`
  unfoldable pub lookup : K → Dict K V → Option V
  lookup k [] = none
  lookup k ((j, v) ∷ d) = if j == k then some v else lookup k d

  -- `k in d`
  unfoldable pub has : K → Dict K V → Bool
  has k [] = false
  has k ((j, v) ∷ d) = if j == k then true else has k d

  -- `d[k] = v`
  unfoldable pub insert : K → V → Dict K V → Dict K V
  insert k v [] = (k, v) ∷ []
  insert k v ((j, w) ∷ d) = if j == k then (j, v) ∷ d else (j, w) ∷ insert k v d

  -- `d.pop(k, None)`
  unfoldable pub erase : K → Dict K V → Dict K V
  erase k [] = []
  erase k ((j, w) ∷ d) = let rest = erase k d in if j == k then rest else (j, w) ∷ rest

  pub lookup-insert :
      (j k : K) (v : V) (d : Dict K V)
      → lookup j (insert k v d) ≡ (if k == j then some v else lookup j d)
  unfolding lookup insert
  lookup-insert j k v [] = refl
  lookup-insert j k v ((i, w) ∷ d) =
      ground (arith, e.test_iff k j, e.test_iff i k, e.test_iff i j, lookup-insert j k v d)

  pub lookup-erase :
      (j k : K) (d : Dict K V) → lookup j (erase k d) ≡ (if k == j then none else lookup j d)
  unfolding lookup erase
  lookup-erase j k [] = ground arith
  lookup-erase j k ((i, w) ∷ d) =
      ground (arith, e.test_iff k j, e.test_iff i k, e.test_iff i j, lookup-erase j k d)

  pub has-insert :
      (j k : K) (v : V) (d : Dict K V) → has j (insert k v d) ≡ (if k == j then true else has j d)
  unfolding has insert
  has-insert j k v [] = refl
  has-insert j k v ((i, w) ∷ d) =
      ground (arith, e.test_iff k j, e.test_iff i k, e.test_iff i j, has-insert j k v d)

  lookup-ne-none : (k : K) (d : Dict K V) → has k d ≡ true → lookup k d ≢ none
  unfolding lookup has
  lookup-ne-none k [] h = cc
  lookup-ne-none k ((i, w) ∷ d) h = ground (arith, lookup-ne-none k d)

  -- A key that is there has a value.
  pub lookup_of_has : (k : K) (d : Dict K V) → has k d ≡ true → (v : V) × (lookup k d ≡ some v)
  lookup_of_has k d h = elim (Option-cases (lookup k d)) [
    | inl missing ↦ absurd (lookup-ne-none k d h missing)
    | inr found ↦ found
  ]

  pub has-keys : (k : K) (d : Dict K V) → has k d ≡ contains (keys d) k
  unfolding has
  has-keys k [] = refl
  has-keys k ((j, v) ∷ d) = ground (arith, has-keys k d)

  pub has_of_lookup : (k : K) (d : Dict K V) {v : V} → lookup k d ≡ some v → has k d ≡ true
  unfolding lookup has
  has_of_lookup k [] h = cc
  has_of_lookup k ((j, w) ∷ d) {v} h = ground (arith, has_of_lookup k d {v = v})

  keys-insert :
      (k j : K) (v : V) (d : Dict K V)
      → contains (keys (insert k v d)) j ≡ (if k == j then true else contains (keys d) j)
  keys-insert k j v d = ground (arith, has-keys j d, has-keys j (insert k v d), has-insert j k v d)

  -- `d[k] = v` lists no key twice.
  pub Distinct-insert :
      (k : K) (v : V) (d : Dict K V) → Distinct (keys d) → Distinct (keys (insert k v d))
  unfolding insert
  Distinct-insert k v [] u = (refl, tt)
  Distinct-insert k v ((j, w) ∷ d) (fresh, u) =
      ground (arith, Distinct-insert k v d u, keys-insert k j v d, e.test_iff k j, e.test_iff j k)

pub length-keys {ℓ κ} : {K : Type ℓ} {V : Type κ} (d : Dict K V) → length (keys d) ≡ length d
length-keys [] = refl
length-keys ((k, v) ∷ d) = ap suc (length-keys d)
