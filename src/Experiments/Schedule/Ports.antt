-- ===== src/Experiments/Schedule/Ports.antt =====
-- ubsim_lab/experiments.py: the ports of a run's trials.
use openurma_gem5_lab.Prelude.{
  get_elem?-lt, ℕ, ◌+◌, ◌≤◌, ◌<◌, ◌≡◌, ap, ◌∙◌, String, some, get_elem?, arith,
}
use openurma_gem5_lab.Json.{Json}
use openurma_gem5_lab.Prelude.Result.{Result, ok}
use openurma_gem5_lab.Experiments.Recipe.{Recipe, runs_of, validate_recipe}
use openurma_gem5_lab.Experiments.Runnable.{validate_recipe-IsRunnable}
use openurma_gem5_lab.Experiments.Schedule.{Cell, Trial, Row, trial_of, run_trials}
use openurma_gem5_lab.Experiments.Schedule.Cells.{cells, length-cells}
use openurma_gem5_lab.Experiments.Schedule.Numbered.{run_trials-numbered}

port_of :
    (r : Recipe) (simulator : String) (k : ℕ) (c : Cell)
    → k < 1000
    → (trial_of r simulator k c).port ≡ 21600 + k
unfolding trial_of
port_of r simulator k c h = omega (arith, h)

module _ {E M : Type 0} (execute : Trial → Result E M) (simulator : String) (r : Recipe) where
  row_port :
      (k : ℕ) (row : Row M)
      → runs_of r ≤ 1000
      → get_elem? (run_trials execute simulator r).1.rows k ≡ some row
      → (k < runs_of r) × (row.trial.port ≡ 21600 + k)
  row_port k row few h =
      let (c, found, same) = run_trials-numbered execute simulator r k row h in
      let below : k < runs_of r = omega (arith, get_elem?-lt (cells r) k c found, length-cells r) in
      (below, ap (λ t. t.port) same ∙ port_of r simulator k c (omega (arith, below, few)))

-- The trials of an accepted recipe use the ports 21600 to 21719 at most, and no two of them the same
-- one.
pub validate_recipe-run_trials :
    {E M : Type 0} (execute : Trial → Result E M) (simulator : String) (text_of : Json → String)
    (raw spec : Json) (r : Recipe) (i j : ℕ) (row row' : Row M)
    → validate_recipe text_of raw spec ≡ ok r
    → get_elem? (run_trials execute simulator r).1.rows i ≡ some row
    → get_elem? (run_trials execute simulator r).1.rows j ≡ some row'
    → row.trial.port ≡ row'.trial.port
    → (i ≡ j) × (21600 ≤ row.trial.port) × (row.trial.port ≤ 21719)
validate_recipe-run_trials execute simulator text_of raw spec r i j row row' valid hi hj same =
    let few : runs_of r ≤ 120 = (validate_recipe-IsRunnable text_of raw spec r valid).few_runs in
    let (below, port) = row_port execute simulator r i row (omega (arith, few)) hi in
    let (below', port') = row_port execute simulator r j row' (omega (arith, few)) hj in
    (omega (arith, port, port', same), omega (arith, port), omega (arith, port, below, few))
