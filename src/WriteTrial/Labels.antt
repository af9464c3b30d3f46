-- ===== src/WriteTrial/Labels.antt =====
-- tools/check_qemu_write_trial.py: the labels of the cases, and their sizes.
use openurma_gem5_lab.Prelude.{
  ℕ, ◌≡◌, ◌≢◌, refl, ap, String, ◌<>◌, Bool, true, false, List, [], ◌∷◌, ◌++◌, map, Option, All,
  Distinct, contains, ◌==◌, nat_eq, string_eq, arith,
}
use openurma_gem5_lab.Prelude.Text.{str}
use openurma_gem5_lab.WriteTrial.Records.{Workload, agrees}

-- `label` of a case
abbrev pub label_of : Workload → String
label_of c = c.verb <> "-" <> str c.size

-- The cases have one verb, which is the requested one, and one direction, and no two the same size.
pub record IsOneKind (requested : Option String) (cases : List Workload) : Type 0 where
  pub verb : String
  pub bidirectional : Bool
  pub asked : agrees (λ (a b : String). a == b) requested verb ≡ true
  pub alike : All (λ c. (c.verb ≡ verb) × (c.bidirectional ≡ bidirectional)) cases
  pub sizes : Distinct (map (λ (c : Workload). c.size) cases)
  pub some_cases : cases ≢ []

pub map-append {ℓ κ} :
    {A : Type ℓ} {B : Type κ} (f : A → B) (xs ys : List A) → map f (xs ++ ys) ≡ map f xs ++ map f ys
map-append f [] ys = refl
map-append f (x ∷ xs) ys = ap (λ zs. f x ∷ zs) (map-append f xs ys)

pub All-snoc {ℓ κ} :
    {A : Type ℓ} (P : A → Type κ) (xs : List A) (a : A) → All P xs → P a → All P (xs ++ a ∷ [])
All-snoc P [] a h p = (p, tt)
All-snoc P (x ∷ xs) a (q, h) p = (q, All-snoc P xs a h p)

contains-map :
    (f : ℕ → String) (xs : List ℕ) (a : ℕ)
    → contains (map f xs) (f a) ≡ false
    → contains xs a ≡ false
contains-map f [] a h = refl
contains-map f (x ∷ xs) a h =
    ground (arith, contains-map f xs a, nat_eq.test_iff x a, string_eq.test_iff (f x) (f a), ap f)

pub Distinct-images : (f : ℕ → String) (xs : List ℕ) → Distinct (map f xs) → Distinct xs
Distinct-images f [] d = tt
Distinct-images f (x ∷ xs) (fresh, d) = (contains-map f xs x fresh, Distinct-images f xs d)

-- Labels of one verb are images of the sizes.
pub labels_one_verb :
    (verb : String) (bidirectional : Bool) (cases : List Workload)
    → All (λ c. (c.verb ≡ verb) × (c.bidirectional ≡ bidirectional)) cases
    → map label_of cases ≡ map (λ n. verb <> "-" <> str n) (map (λ (c : Workload). c.size) cases)
labels_one_verb verb bidirectional [] h = refl
labels_one_verb verb bidirectional (c ∷ cases) ((same, _), h) =
    cc (ap (λ v. v <> "-" <> str c.size) same, labels_one_verb verb bidirectional cases h)
