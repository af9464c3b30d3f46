-- ===== src/Experiments/Values.antt =====
-- ubsim_lab/experiments.py: what the fields of an accepted recipe satisfy.
use openurma_gem5_lab.Prelude.{
  ℕ, suc, ◌≤◌, ◌≡◌, refl, ap, String, true, false, List, [], ◌∷◌, nat_eq, string_eq, list_eq,
  contains, length, map, has_repeat, All, arith, ◌∙◌,
}
use openurma_gem5_lab.Prelude.Dict.{Dict}
use openurma_gem5_lab.Experiments.Recipe.{
  integers_in, integer_field, ops, values_of, tests_of, RecipeError, integer_in,
}
use openurma_gem5_lab.Prelude.Result.{
  Ensures-bind, Ensures, Ensures-ok, Ensures-err, Ensures-raise_if,
}
use openurma_gem5_lab.Prelude.Int.{pos, negsuc}
use openurma_gem5_lab.Json.{Json, num, str, arr, obj, null, bool, float}

pub record IsValues (text_of : Json → String) (maximum : ℕ) (vs : List Json) : Type 0 where
  pub low : 1 ≤ length vs
  pub high : length vs ≤ maximum
  pub apart : has_repeat (map text_of vs) ≡ false

pub values_of-IsValues :
    (text_of : Json → String) (field : String) (maximum : ℕ) (raw : Json)
    → Ensures (IsValues text_of maximum) (values_of text_of field maximum raw)
unfolding values_of
values_of-IsValues text_of field maximum (arr vs) = record {
  holds = λ found h. record { low = ground arith; high = ground arith; apart = ground arith };
}
values_of-IsValues text_of field maximum null = Ensures-err _
values_of-IsValues text_of field maximum (bool b) = Ensures-err _
values_of-IsValues text_of field maximum (num n) = Ensures-err _
values_of-IsValues text_of field maximum (float n) = Ensures-err _
values_of-IsValues text_of field maximum (str s) = Ensures-err _
values_of-IsValues text_of field maximum (obj ms) = Ensures-err _

pub record IsTests (text_of : Json → String) (vs : List Json) (tests : List String) : Type 0 where
  pub count : length tests ≡ length vs
  pub known : All (λ op. contains ops op ≡ true) tests
  pub texts : map text_of vs ≡ map (λ t. text_of (str t)) tests

pub tests_of-IsTests :
    (text_of : Json → String) (vs : List Json) → Ensures (IsTests text_of vs) (tests_of vs)
unfolding tests_of
tests_of-IsTests text_of [] = Ensures-ok _ (record { count = refl; known = tt; texts = refl })
tests_of-IsTests text_of (str test ∷ rest) = Ensures-raise_if _ _ _ λ known.
    Ensures-bind _ _ λ tests read.
      let more = (tests_of-IsTests text_of rest).holds tests read in
      Ensures-ok _ (record {
        count = ap suc more.count;
        known = (ground arith, more.known);
        texts = ap (λ ts. text_of (str test) ∷ ts) more.texts;
      })
tests_of-IsTests text_of (null ∷ rest) = Ensures-err _
tests_of-IsTests text_of (bool b ∷ rest) = Ensures-err _
tests_of-IsTests text_of (num n ∷ rest) = Ensures-err _
tests_of-IsTests text_of (float n ∷ rest) = Ensures-err _
tests_of-IsTests text_of (arr vs ∷ rest) = Ensures-err _
tests_of-IsTests text_of (obj ms ∷ rest) = Ensures-err _

record IsInteger (low high : ℕ) (value : Json) (n : ℕ) : Type 0 where
  pub at_least : low ≤ n
  pub at_most : n ≤ high
  pub number : value ≡ num (pos n)

integer_in-IsInteger :
    (low high : ℕ) (e : RecipeError) (value : Json)
    → Ensures (IsInteger low high value) (integer_in low high e value)
unfolding integer_in
integer_in-IsInteger low high e (num (pos n)) = record {
  holds = λ m h. record { at_least = ground arith; at_most = ground arith; number = ground arith };
}
integer_in-IsInteger low high e (num (negsuc n)) = Ensures-err _
integer_in-IsInteger low high e null = Ensures-err _
integer_in-IsInteger low high e (bool b) = Ensures-err _
integer_in-IsInteger low high e (float n) = Ensures-err _
integer_in-IsInteger low high e (str s) = Ensures-err _
integer_in-IsInteger low high e (arr vs) = Ensures-err _
integer_in-IsInteger low high e (obj ms) = Ensures-err _

pub record IsIntegers (text_of : Json → String) (low high : ℕ) (vs : List Json) (ns : List ℕ)
    : Type 0 where
  pub count : length ns ≡ length vs
  pub bounded : All (λ n. (low ≤ n) × (n ≤ high)) ns
  pub texts : map text_of vs ≡ map (λ n. text_of (num (pos n))) ns

pub integers_in-IsIntegers :
    (text_of : Json → String) (low high : ℕ) (e : RecipeError) (vs : List Json)
    → Ensures (IsIntegers text_of low high vs) (integers_in low high e vs)
unfolding integers_in
integers_in-IsIntegers text_of low high e [] =
    Ensures-ok _ (record { count = refl; bounded = tt; texts = refl })
integers_in-IsIntegers text_of low high e (value ∷ rest) = Ensures-bind _ _ λ n one.
    Ensures-bind _ _ λ ns read.
      let first = (integer_in-IsInteger low high e value).holds n one in
      let more = (integers_in-IsIntegers text_of low high e rest).holds ns read in
      Ensures-ok _ (record {
        count = ap suc more.count;
        bounded = ((first.at_least, first.at_most), more.bounded);
        texts =
            ap (λ v. text_of v ∷ map text_of rest) first.number
            ∙ ap (λ ts. text_of (num (pos n)) ∷ ts) more.texts;
      })

pub integer_field-bounds :
    (recipe : Dict String Json) (name : String) (low high : ℕ)
    → Ensures (λ n. (low ≤ n) × (n ≤ high)) (integer_field recipe name low high)
unfolding integer_field
integer_field-bounds recipe name low high = Ensures-bind _ _ λ value _. record {
  holds =
      λ n h. let v = (integer_in-IsInteger low high _ value).holds n h in (v.at_least, v.at_most);
}
