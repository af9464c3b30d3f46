-- ===== src/Experiments/Schedule/Numbered.antt =====
-- ubsim_lab/experiments.py: the rows that `run` leaves, finished or not.
use openurma_gem5_lab.Prelude.{
  ℕ, ◌≡◌, refl, sym, ap, ◌∙◌, String, List, [], ◌∷◌, ◌++◌, some, none, length, length-append,
  get_elem?, arith, inl, inr,
}
use mathlib.Core.Path.{subst}
use mathlib.Core.List.{append-nil, append_assoc}
use openurma_gem5_lab.Prelude.Result.{Result, ok, err}
use openurma_gem5_lab.Experiments.Recipe.{Recipe, runs_of}
use openurma_gem5_lab.Experiments.Schedule.{
  Outcome, and_then, record_trial, run_cell, run_trials, Cell, Trial, Row, Progress, fresh,
  trial_of,
}
use openurma_gem5_lab.Experiments.Schedule.Cells.{
  cells, length-cells, run_cells, run_trials-run_cells,
}
use openurma_gem5_lab.Prelude.Entries.{
  get_elem?-snoc, get_elem?-front, get_elem?-behind, get_elem?-last,
}

module _ {M : Type 0} (simulator : String) (r : Recipe) where
  -- The rows are those of the trials of `done`, in order, and are counted.
  record IsRecorded (done : List Cell) (p : Progress M) : Type 0 where
    counted : p.completed ≡ length p.rows
    many : length p.rows ≡ length done
    each :
        (k : ℕ) (row : Row M)
        → get_elem? p.rows k ≡ some row
        → (c : Cell) × (get_elem? done k ≡ some c) × (row.trial ≡ trial_of r simulator k c)

  fresh-IsRecorded : IsRecorded [] fresh
  fresh-IsRecorded = record { counted = refl; many = refl; each = λ k row h. absurd (cc) }

module _ {E M : Type 0} (execute : Trial → Result E M) (simulator : String) (r : Recipe) where
  record_trial-IsRecorded :
      (done : List Cell) (c : Cell) (p : Progress M) (m : M)
      → IsRecorded simulator r done p
      → IsRecorded simulator r (done ++ c ∷ []) (record {
        rows =
            p.rows ++ record { trial = trial_of r simulator (length p.rows) c; metrics = m } ∷ [];
        completed = (trial_of r simulator (length p.rows) c).sequence;
      })
  unfolding trial_of
  record_trial-IsRecorded done c p m v = record {
    counted = omega (
      arith,
      length-append p.rows
          (record { trial = trial_of r simulator (length p.rows) c; metrics = m } ∷ []),
    );
    many = omega (
      arith,
      v.many,
      length-append p.rows
          (record { trial = trial_of r simulator (length p.rows) c; metrics = m } ∷ []),
      length-append done (c ∷ []),
    );
    each = λ k row h. elim (get_elem?-snoc p.rows _ row k h) [
      | inl old ↦
          let (c', found, same) = v.each k row old in
          (c', get_elem?-front done (c ∷ []) k c' found, same)
      | inr (last, same) ↦ (
        c,
        ap (get_elem? (done ++ c ∷ [])) (last ∙ v.many) ∙ get_elem?-last done c,
        ap (λ t. t.trial) (sym same) ∙ ap (λ n. trial_of r simulator n c) (sym last),
      )
    ];
  }

  -- How far a pass over `todo`, behind `before`, has come.
  record IsPass (before todo : List Cell) (o : Outcome E M) : Type 0 where
    done : List Cell
    rest : List Cell
    split : todo ≡ done ++ rest
    recorded : IsRecorded simulator r (before ++ done) o.1
    finished : o.0 ≡ none → rest ≡ []
    raised :
        (e : E)
        → o.0 ≡ some e
        → (c : Cell) × (get_elem? rest 0 ≡ some c)
          × (execute (trial_of r simulator (length (before ++ done)) c) ≡ err e)

  run_cell-err :
      (c : Cell) (p : Progress M) (e : E)
      → execute (trial_of r simulator (length p.rows) c) ≡ err e
      → run_cell execute simulator r c p ≡ (some e, p)
  unfolding run_cell record_trial
  run_cell-err c p e h = rw h refl

  run_cell-ok :
      (c : Cell) (p : Progress M) (m : M)
      → execute (trial_of r simulator (length p.rows) c) ≡ ok m
      → run_cell execute simulator r c p ≡ (
        none,
        record {
          rows =
              p.rows ++ record { trial = trial_of r simulator (length p.rows) c; metrics = m } ∷ [];
          completed = (trial_of r simulator (length p.rows) c).sequence;
        },
      )
  unfolding run_cell record_trial
  run_cell-ok c p m h = rw h refl

  -- A pass that goes on behind one more point.
  onward :
      (before cs : List Cell) (c : Cell) (o : Outcome E M)
      → IsPass (before ++ c ∷ []) cs o
      → IsPass before (c ∷ cs) o
  onward before cs c o w =
      let place = append_assoc before (c ∷ []) w.done in
      record {
        done = c ∷ w.done;
        rest = w.rest;
        split = ap (λ xs. c ∷ xs) w.split;
        recorded = subst (λ xs. IsRecorded simulator r xs o.1) place w.recorded;
        finished = w.finished;
        raised = λ e h.
            let (c', first, failed) = w.raised e h in
            (
              c',
              first,
              subst (λ xs. execute (trial_of r simulator (length xs) c') ≡ err e) place failed,
            );
      }

  -- A pass whose first trial has come to `m`.
  after_cell :
      (before cs : List Cell) (c : Cell) (p : Progress M) (m : Result E M)
      → IsRecorded simulator r before p
      → execute (trial_of r simulator (length p.rows) c) ≡ m
      → ((p' : Progress M)
          → IsRecorded simulator r (before ++ c ∷ []) p'
          → IsPass (before ++ c ∷ []) cs (run_cells execute simulator r cs p'))
      → IsPass before
          (c ∷ cs)
          (and_then (run_cell execute simulator r c p) λ p'. run_cells execute simulator r cs p')
  unfolding and_then
  after_cell before cs c p (err e) v h next = rw (run_cell-err c p e h) (record {
    done = [];
    rest = c ∷ cs;
    split = refl;
    recorded = rw (append-nil before) v;
    finished = λ k. absurd (cc);
    raised = λ e' k.
        let same : e ≡ e' = cc in
        (
          c,
          refl,
          ap (λ n. execute (trial_of r simulator n c)) (ap length (append-nil before) ∙ sym v.many)
              ∙ h
              ∙ ap err same,
        );
  })
  after_cell before cs c p (ok m) v h next =
      rw (run_cell-ok c p m h)
        (onward before cs c _ (next _ (record_trial-IsRecorded before c p m v)))

  run_cells-IsPass :
      (before todo : List Cell) (p : Progress M)
      → IsRecorded simulator r before p
      → IsPass before todo (run_cells execute simulator r todo p)
  unfolding run_cells and_then
  run_cells-IsPass before [] p v = record {
    done = [];
    rest = [];
    split = refl;
    recorded = rw (append-nil before) v;
    finished = λ h. refl;
    raised = λ e h. absurd (cc);
  }
  run_cells-IsPass before (c ∷ cs) p v =
      after_cell before cs c p (execute (trial_of r simulator (length p.rows) c)) v refl
        (run_cells-IsPass (before ++ c ∷ []) cs)

  whole : IsPass [] (cells r) (run_trials execute simulator r)
  whole =
      rw (run_trials-run_cells execute simulator r)
        (run_cells-IsPass [] (cells r) fresh (fresh-IsRecorded simulator r))

  -- The row at place `k` is that of the trial numbered `k + 1`, of the point at place `k` of the
  -- recipe; this holds of a run that an exception has ended, too.
  pub run_trials-numbered :
      (k : ℕ) (row : Row M)
      → get_elem? (run_trials execute simulator r).1.rows k ≡ some row
      → (c : Cell) × (get_elem? (cells r) k ≡ some c) × (row.trial ≡ trial_of r simulator k c)
  run_trials-numbered k row h =
      let (c, found, same) = whole.recorded.each k row h in
      (
        c,
        ap (λ xs. get_elem? xs k) whole.split ∙ get_elem?-front whole.done whole.rest k c found,
        same,
      )

  -- A run without an exception has as many rows as the recipe has runs, all counted.
  pub run_trials_complete :
      (run_trials execute simulator r).0 ≡ none
      → ((run_trials execute simulator r).1.completed ≡ runs_of r)
        × (length (run_trials execute simulator r).1.rows ≡ runs_of r)
  run_trials_complete h =
      let all_done : cells r ≡ whole.done =
        whole.split ∙ ap (λ xs. whole.done ++ xs) (whole.finished h) ∙ append-nil whole.done in
      let count : length (run_trials execute simulator r).1.rows ≡ runs_of r =
        whole.recorded.many ∙ sym (ap length all_done) ∙ length-cells r in
      (whole.recorded.counted ∙ count, count)

  -- If an exception ends the run, it was raised by the trial of the point that follows the rows kept,
  -- whose number the run has counted.
  pub run_trials-raised :
      (e : E)
      → (run_trials execute simulator r).0 ≡ some e
      → ((run_trials execute simulator r).1.completed
          ≡ length (run_trials execute simulator r).1.rows)
        × ((c : Cell) × (get_elem? (cells r) (length (run_trials execute simulator r).1.rows)
              ≡ some c)
            × (execute (trial_of r simulator (length (run_trials execute simulator r).1.rows) c)
                ≡ err e))
  run_trials-raised e h =
      let (c, first, failed) = whole.raised e h in
      let many = whole.recorded.many in
      (
        whole.recorded.counted,
        (
          c,
          ap (λ xs. get_elem? xs (length (run_trials execute simulator r).1.rows)) whole.split
              ∙ ap (get_elem? (whole.done ++ whole.rest)) many
              ∙ get_elem?-behind whole.done whole.rest
              ∙ first,
          ap (λ n. execute (trial_of r simulator n c)) many ∙ failed,
        ),
      )
