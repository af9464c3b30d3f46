-- ===== src/Experiments/Runnable.antt =====
-- ubsim_lab/experiments.py: what a recipe that `validate_recipe` returns satisfies.
use openurma_gem5_lab.Prelude.{
  ℕ, ◌*◌, ◌/◌, ◌%◌, ◌≤◌, ◌≡◌, ap, min, String, true, false, not, ◌&&◌, List, [], ◌∷◌, ◌==◌, nat_eq,
  string_eq, list_eq, contains, any, length, map, has_repeat, Distinct, All, arith, HasTest,
  Distinct-has_repeat, has_repeat-map, ◌∙◌, sym,
}
use openurma_gem5_lab.Experiments.Recipe.{
  is_latency, check_jettys, runs_of, validate_recipe, Recipe, ops,
}
use openurma_gem5_lab.Prelude.Result.{Ensures-bind, Ensures, Ensures-ok, Ensures-raise_if, ok}
use openurma_gem5_lab.Prelude.Int.{pos}
use openurma_gem5_lab.Json.{Json, num, str}
use openurma_gem5_lab.Experiments.Values.{
  values_of-IsValues, tests_of-IsTests, integers_in-IsIntegers, integer_field-bounds,
}

-- Whole shares of the operations for each Jetty, not smaller than what is posted at once, and room
-- for the completions of all Jettys.
pub record IsShared (total depth jfc post j : ℕ) : Type 0 where
  pub whole : total % j ≡ 0
  pub posted : post ≤ total / j
  pub completions : j * min depth (total / j) ≤ jfc

abbrev pub InSizes : ℕ → Type 0
InSizes n = (1 ≤ n) × (n ≤ 10485760)

pub record IsRunnable (r : Recipe) : Type 0 where
  pub some_operation : 1 ≤ length r.operations
  pub known_operations : All (λ op. contains ops op ≡ true) r.operations
  pub distinct_operations : Distinct r.operations
  pub some_size : 1 ≤ length r.sizes
  pub sizes_bounded : All InSizes r.sizes
  pub distinct_sizes : Distinct r.sizes
  pub some_jettys : 1 ≤ length r.jettys
  pub positive_jettys : All (λ j. 1 ≤ j) r.jettys
  pub distinct_jettys : Distinct r.jettys
  pub shared : All (IsShared r.total_ops r.depth r.jfc_depth r.post_list) r.jettys
  pub latency_alone : (any is_latency r.operations && not (r.jettys == 1 ∷ [])) ≡ false
  pub deep : r.post_list ≤ r.depth
  pub repeated : 1 ≤ r.repeats
  pub few_runs : runs_of r ≤ 120

check_jettys-IsShared :
    (total depth jfc post : ℕ) (jettys : List ℕ)
    → Ensures
        (λ _. All (IsShared total depth jfc post) jettys)
        (check_jettys total depth jfc post jettys)
unfolding check_jettys
check_jettys-IsShared total depth jfc post [] = Ensures-ok _ tt
check_jettys-IsShared total depth jfc post (j ∷ rest) = Ensures-raise_if _ _ _ λ even.
    Ensures-raise_if _ _ _ λ room. record {
      holds = λ done h. (
        record { whole = ground arith; posted = ground arith; completions = ground arith },
        (check_jettys-IsShared total depth jfc post rest).holds done h,
      );
    }

-- Values that are distinct as texts are distinct.
Distinct-map :
    {A : Type 0} ⦃e : HasTest A⦄ (f : A → String) (texts : List String) (xs : List A)
    → has_repeat texts ≡ false
    → texts ≡ map f xs
    → Distinct xs
Distinct-map f texts xs h same =
    Distinct-has_repeat xs (has_repeat-map f xs (sym (ap has_repeat same) ∙ h))

lower_bounds : (high : ℕ) (ns : List ℕ) → All (λ n. (1 ≤ n) × (n ≤ high)) ns → All (λ n. 1 ≤ n) ns
lower_bounds high [] h = tt
lower_bounds high (n ∷ ns) (first, rest) = (first.0, lower_bounds high ns rest)

validated :
    (text_of : Json → String) (raw spec : Json)
    → Ensures IsRunnable (validate_recipe text_of raw spec)
unfolding validate_recipe
validated text_of raw spec = Ensures-bind _ _ λ recipe _. Ensures-bind _ _ λ raw_operations _.
    Ensures-bind _ _ λ operation_values listed_operations.
      Ensures-bind _ _ λ operations read_operations. Ensures-bind _ _ λ raw_sizes _.
        Ensures-bind _ _ λ size_values listed_sizes. Ensures-bind _ _ λ raw_jettys _.
          Ensures-bind _ _ λ jetty_values listed_jettys. Ensures-bind _ _ λ sizes read_sizes.
            Ensures-bind _ _ λ devices _. Ensures-bind _ _ λ limits _.
              Ensures-bind _ _ λ max_jettys _. Ensures-bind _ _ λ jettys read_jettys.
                Ensures-raise_if _ _ _ λ latency. Ensures-bind _ _ λ total _.
                  Ensures-bind _ _ λ warmups _. Ensures-bind _ _ λ repeats read_repeats.
                    Ensures-bind _ _ λ depth _. Ensures-bind _ _ λ jfc _. Ensures-bind _ _ λ post _.
                      Ensures-bind _ _ λ timeout _. Ensures-raise_if _ _ _ λ deep.
                        Ensures-bind _ _ λ checked shared. Ensures-raise_if _ _ _ λ few.
                          Ensures-bind _ _ λ plan _. Ensures-bind _ _ λ ports _.
                            Ensures-raise_if _ _ _ λ _.
                              let o =
                                (values_of-IsValues text_of "operations" 4 raw_operations).holds _
                                  listed_operations in
                              let s =
                                (values_of-IsValues text_of "sizes" 24 raw_sizes).holds _
                                  listed_sizes in
                              let j =
                                (values_of-IsValues text_of "jettys" 12 raw_jettys).holds _
                                  listed_jettys in
                              let os =
                                (tests_of-IsTests text_of operation_values).holds _
                                  read_operations in
                              let ss =
                                (integers_in-IsIntegers text_of _ _ _ size_values).holds _
                                  read_sizes in
                              let js =
                                (integers_in-IsIntegers text_of _ _ _ jetty_values).holds _
                                  read_jettys in
                              Ensures-ok _ (record {
                                some_operation = omega (arith, o.low, os.count);
                                known_operations = os.known;
                                distinct_operations =
                                    Distinct-map (λ t. text_of (str t)) _ operations o.apart
                                      os.texts;
                                some_size = omega (arith, s.low, ss.count);
                                sizes_bounded = ss.bounded;
                                distinct_sizes =
                                    Distinct-map (λ n. text_of (num (pos n))) _ sizes s.apart
                                      ss.texts;
                                some_jettys = omega (arith, j.low, js.count);
                                positive_jettys = lower_bounds _ jettys js.bounded;
                                distinct_jettys =
                                    Distinct-map (λ n. text_of (num (pos n))) _ jettys j.apart
                                      js.texts;
                                shared =
                                    (check_jettys-IsShared total depth jfc post jettys).holds
                                      checked shared;
                                latency_alone = latency;
                                deep = ground arith;
                                repeated =
                                    ((integer_field-bounds recipe "repeats" 1 10).holds repeats
                                      read_repeats).0;
                                few_runs = ground arith;
                              })

-- A recipe that `validate_recipe` accepts names 1 to 4 known tests, sizes of 1 B to 10 MiB and
-- Jetty counts, all distinct; each Jetty count shares the operations out whole, with as many for each
-- Jetty as are posted at once, and has room for its completions; a latency test goes with a single
-- Jetty only; the queue holds what is posted at once; and there are 120 runs at most.
pub validate_recipe-IsRunnable :
    (text_of : Json → String) (raw spec : Json) (r : Recipe)
    → validate_recipe text_of raw spec ≡ ok r
    → IsRunnable r
validate_recipe-IsRunnable text_of raw spec r h = (validated text_of raw spec).holds r h
