-- ===== src/Experiments/Schedule.antt =====
-- ubsim_lab/experiments.py: the loops of `run` over the trials of a recipe.
pub mod Cells
pub mod Numbered
pub mod Ports
use openurma_gem5_lab.Prelude.{
  ℕ, zero, suc, ◌+◌, ◌-◌, ◌%◌, String, ◌<>◌, Bool, true, false, List, [], ◌∷◌, ◌++◌, ltb,
  if◌then◌else◌, Option, some, none, length, ◌≡◌, refl,
}
use openurma_gem5_lab.Prelude.Text.{str, pad3}
use openurma_gem5_lab.Prelude.Result.{Result, ok, err}
use openurma_gem5_lab.Experiments.Recipe.{Recipe}
use openurma_gem5_lab.Experiments.Command.{command}

pub data Phase : Type 0 where
  warmup measure : Phase

abbrev pub phase_text : Phase → String
phase_text warmup = "warmup"
phase_text measure = "measure"

-- One point of the loops: a test, a size, a number of Jettys and the index of the repetition.
pub record Cell : Type 0 where
  pub operation : String
  pub size : ℕ
  pub jettys : ℕ
  pub index : ℕ

-- What the body works out before it runs the two commands.
pub record Trial : Type 0 where
  pub sequence : ℕ
  pub phase : Phase
  pub repeat : ℕ
  pub cell : Cell
  pub port : ℕ
  pub server : String
  pub client : String
  pub transcript : String

unfoldable pub phase_of : Recipe → ℕ → Phase
phase_of r index = if ltb index r.warmups then warmup else measure

unfoldable pub transcript_of : ℕ → Cell → Phase → String
transcript_of sequence c phase =
    pad3 sequence
    <> "-"
    <> c.operation
    <> "-s"
    <> str c.size
    <> "-j"
    <> str c.jettys
    <> "-"
    <> phase_text phase
    <> ".uart.txt"

-- The trial that follows `done` finished ones.
unfoldable pub trial_of : Recipe → String → ℕ → Cell → Trial
unfolding phase_of transcript_of
trial_of r simulator done c =
    let sequence = done + 1 in
    let port = 21600 + (sequence - 1) % 1000 in
    record {
      sequence = sequence;
      phase = phase_of r c.index;
      repeat = c.index + 1 - r.warmups;
      cell = c;
      port = port;
      server = command c.operation c.size c.jettys r port false simulator;
      client = command c.operation c.size c.jettys r port true simulator;
      transcript = transcript_of sequence c (phase_of r c.index);
    }

-- A row of the results: the trial with what was measured.
pub record Row (M : Type 0) : Type 0 where
  pub trial : Trial
  pub metrics : M

-- `rows` and `status["completed"]`
pub record Progress (M : Type 0) : Type 0 where
  pub rows : List (Row M)
  pub completed : ℕ

abbrev pub fresh : {M : Type 0} → Progress M
fresh = record { rows = []; completed = 0 }

-- An exception, or none, with the progress that it leaves on disk.
abbrev pub Outcome : Type 0 → Type 0 → Type 0
Outcome E M = Option E × Progress M

module _ {E M : Type 0} where
  unfoldable pub and_then : Outcome E M → (Progress M → Outcome E M) → Outcome E M
  and_then (none, p) next = next p
  and_then (some e, p) next = (some e, p)

  -- The end of the body: the row is kept, or the exception leaves the loops.
  unfoldable pub record_trial : Trial → Result E M → Progress M → Outcome E M
  record_trial t (err e) p = (some e, p)
  record_trial t (ok m) p = (
    none,
    record { rows = p.rows ++ record { trial = t; metrics = m } ∷ []; completed = t.sequence },
  )

-- `execute` runs the two commands of a trial and parses what they print, or raises.
module _ {E M : Type 0} (execute : Trial → Result E M) (simulator : String) (r : Recipe) where
  -- The body of the innermost loop.
  unfoldable pub run_cell : Cell → Progress M → Outcome E M
  unfolding trial_of record_trial
  run_cell c p = let t = trial_of r simulator (length p.rows) c in record_trial t (execute t) p

  -- `for index in range(index, index + more)`
  unfoldable pub repeat_loop : String → ℕ → ℕ → ℕ → ℕ → Progress M → Outcome E M
  unfolding run_cell and_then
  repeat_loop op size jettys index zero p = (none, p)
  repeat_loop op size jettys index (suc more) p =
      and_then (run_cell (record { operation = op; size = size; jettys = jettys; index = index }) p)
        λ p'. repeat_loop op size jettys (suc index) more p'

  unfoldable pub jetty_loop : String → ℕ → List ℕ → Progress M → Outcome E M
  unfolding repeat_loop and_then
  jetty_loop op size [] p = (none, p)
  jetty_loop op size (jettys ∷ rest) p =
      and_then (repeat_loop op size jettys 0 (r.warmups + r.repeats) p)
        λ p'. jetty_loop op size rest p'

  unfoldable pub size_loop : String → List ℕ → Progress M → Outcome E M
  unfolding jetty_loop and_then
  size_loop op [] p = (none, p)
  size_loop op (size ∷ rest) p = and_then (jetty_loop op size r.jettys p) λ p'. size_loop op rest p'

  unfoldable pub operation_loop : List String → Progress M → Outcome E M
  unfolding size_loop and_then
  operation_loop [] p = (none, p)
  operation_loop (op ∷ rest) p = and_then (size_loop op r.sizes p) λ p'. operation_loop rest p'

  unfoldable pub run_trials : Outcome E M
  run_trials = operation_loop r.operations fresh
