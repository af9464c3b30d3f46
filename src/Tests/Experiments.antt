-- ===== src/Tests/Experiments.antt =====
-- ubsim_lab/experiments.py at a recipe of four runs on the two heads of Tests/Topology.antt.
use openurma_gem5_lab.Experiments.Schedule.Cells.{cells, run_cells, run_trials-run_cells}
use openurma_gem5_lab.Experiments.Schedule.Numbered.{run_trials-numbered, run_trials_complete}
use openurma_gem5_lab.Experiments.Schedule.Ports.{validate_recipe-run_trials}
use openurma_gem5_lab.Experiments.Schedule.{
  and_then, fresh, record_trial, run_cell, repeat_loop, jetty_loop, size_loop, operation_loop,
  Trial, Cell, Row, run_trials, trial_of,
}
use openurma_gem5_lab.Prelude.{
  ◌≤◌, get_elem?, some, none, length, ap, has_repeat, ℕ, ◌≡◌, refl, String, [], ◌∷◌, ◌==◌, nat_eq,
  string_eq, if◌then◌else◌,
}
use openurma_gem5_lab.Prelude.Dict.{lookup}
use openurma_gem5_lab.Prelude.Int.{pos}
use openurma_gem5_lab.Prelude.Result.{Result, ok, err, ◌>>=◌}
use openurma_gem5_lab.Json.{Json, num, str, arr, obj, nil, cons, end, member}
use openurma_gem5_lab.Topology.Fields.{Checked, minus, is_empty}
use openurma_gem5_lab.Topology.Plan.{Plan}
use openurma_gem5_lab.Tests.Topology.{heads, two_heads, heads_compile}
use openurma_gem5_lab.Experiments.Recipe.{
  bad_topology, Recipe, Valid, validate_recipe, recipe_dict, field_of, values_of, tests_of,
  integer_in, integers_in, integer_field, device_number, device_numbers, devices_of, least_from,
  least, is_latency, check_jettys, runs_of, compiled,
}
use openurma_gem5_lab.Experiments.Runnable.{IsRunnable, validate_recipe-IsRunnable}

abbrev pub one_text : Json → String
one_text (num (pos n)) = if n == 64 then "64" else if n == 128 then "128" else "1"
one_text _ = "read_bw"

abbrev pub recipe_json : Json
recipe_json = obj (
    member "operations" (arr (cons (str "read_bw") nil)) (
      member "sizes" (arr (cons (num (pos 64)) (cons (num (pos 128)) nil))) (
        member "jettys" (arr (cons (num (pos 1)) nil)) (
          member "total_ops" (num (pos 256)) (
            member "warmups" (num (pos 1)) (
              member "repeats" (num (pos 1)) (
                member "depth" (num (pos 64)) (
                  member "jfc_depth" (num (pos 128)) (
                    member "post_list" (num (pos 16))
                      (member "timeout_s" (num (pos 60)) end))))))))))

abbrev pub recipe : Recipe
recipe = record {
  operations = "read_bw" ∷ [];
  sizes = 64 ∷ 128 ∷ [];
  jettys = 1 ∷ [];
  total_ops = 256;
  warmups = 1;
  repeats = 1;
  depth = 64;
  jfc_depth = 128;
  post_list = 16;
  timeout_s = 60;
}

compiled-heads : compiled (heads (str "ua")) ≡ ok two_heads
unfolding compiled
compiled-heads =
    ap {A = Checked Plan} {B = Valid Plan}
      (λ x. elim x [ ok plan ↦ ok plan | err e ↦ err (bad_topology e) ]) heads_compile

pub recipe_valid : validate_recipe one_text recipe_json (heads (str "ua")) ≡ ok recipe
unfolding validate_recipe recipe_dict field_of values_of tests_of integer_in integers_in
    integer_field device_number device_numbers devices_of least_from least is_latency check_jettys
    runs_of ◌>>=◌ minus is_empty has_repeat lookup
recipe_valid = rw compiled-heads refl

validate_recipe-IsRunnable_example : IsRunnable recipe
validate_recipe-IsRunnable_example =
    validate_recipe-IsRunnable one_text recipe_json (heads (str "ua")) recipe recipe_valid

-- All trials measure their port, or the third one fails.
abbrev measured : Trial → Result String ℕ
measured t = ok t.port

abbrev third_fails : Trial → Result String ℕ
third_fails t = if t.sequence == 3 then err "timeout" else ok t.port

run_trials-run_cells_example :
    run_trials third_fails "gem5" recipe ≡ run_cells third_fails "gem5" recipe (cells recipe) fresh
run_trials-run_cells_example = run_trials-run_cells third_fails "gem5" recipe

abbrev second_point : Cell
second_point = record { operation = "read_bw"; size = 64; jettys = 1; index = 1 }

abbrev second_row : Row ℕ
second_row = record { trial = trial_of recipe "gem5" 1 second_point; metrics = 21601 }

abbrev fourth_point : Cell
fourth_point = record { operation = "read_bw"; size = 128; jettys = 1; index = 1 }

abbrev fourth_row : Row ℕ
fourth_row = record { trial = trial_of recipe "gem5" 3 fourth_point; metrics = 21603 }

second_recorded : get_elem? (run_trials third_fails "gem5" recipe).1.rows 1 ≡ some second_row
unfolding run_trials operation_loop size_loop jetty_loop repeat_loop run_cell record_trial and_then
    trial_of
second_recorded = refl

fourth_recorded : get_elem? (run_trials measured "gem5" recipe).1.rows 3 ≡ some fourth_row
unfolding run_trials operation_loop size_loop jetty_loop repeat_loop run_cell record_trial and_then
    trial_of
fourth_recorded = refl

run_trials-numbered_example :
    (c : Cell) × (get_elem? (cells recipe) 1 ≡ some c)
    × (second_row.trial ≡ trial_of recipe "gem5" 1 c)
run_trials-numbered_example =
    run_trials-numbered third_fails "gem5" recipe 1 second_row second_recorded

finished : (run_trials measured "gem5" recipe).0 ≡ none
unfolding run_trials operation_loop size_loop jetty_loop repeat_loop run_cell record_trial and_then
    trial_of
finished = refl

run_trials_complete_example :
    ((run_trials measured "gem5" recipe).1.completed ≡ runs_of recipe)
    × (length (run_trials measured "gem5" recipe).1.rows ≡ runs_of recipe)
run_trials_complete_example = run_trials_complete measured "gem5" recipe finished

failed : (run_trials third_fails "gem5" recipe).0 ≡ some "timeout"
unfolding run_trials operation_loop size_loop jetty_loop repeat_loop run_cell record_trial and_then
    trial_of
failed = refl

validate_recipe-run_trials_example :
    (◌≡◌ {A = ℕ} 3 3) × (21600 ≤ fourth_row.trial.port) × (fourth_row.trial.port ≤ 21719)
validate_recipe-run_trials_example =
    validate_recipe-run_trials measured "gem5" one_text recipe_json (heads (str "ua")) recipe 3 3
      fourth_row fourth_row recipe_valid fourth_recorded fourth_recorded refl
