-- ===== src/Experiments/Schedule/Cells.antt =====
-- ubsim_lab/experiments.py: the loops of `run` as one pass over the points of a recipe.
use openurma_gem5_lab.Prelude.{
  ℕ, zero, suc, ◌+◌, ◌*◌, ◌≡◌, refl, sym, ap, ◌∙◌, String, List, [], ◌∷◌, ◌++◌, some, none, length,
  length-append, arith,
}
use openurma_gem5_lab.Prelude.Result.{Result}
use openurma_gem5_lab.Experiments.Recipe.{Recipe, runs_of}
use openurma_gem5_lab.Experiments.Schedule.{
  Cell, Trial, Progress, Outcome, and_then, fresh, run_cell, repeat_loop, jetty_loop, size_loop,
  operation_loop, run_trials,
}

-- The points of each loop, in its order.
unfoldable pub repeat_cells : String → ℕ → ℕ → ℕ → ℕ → List Cell
repeat_cells op size jettys index zero = []
repeat_cells op size jettys index (suc more) =
    record { operation = op; size = size; jettys = jettys; index = index }
    ∷ repeat_cells op size jettys (suc index) more

module _ (r : Recipe) where
  unfoldable pub jetty_cells : String → ℕ → List ℕ → List Cell
  jetty_cells op size [] = []
  jetty_cells op size (jettys ∷ rest) =
      repeat_cells op size jettys 0 (r.warmups + r.repeats) ++ jetty_cells op size rest

  unfoldable pub size_cells : String → List ℕ → List Cell
  size_cells op [] = []
  size_cells op (size ∷ rest) = jetty_cells op size r.jettys ++ size_cells op rest

  unfoldable pub operation_cells : List String → List Cell
  operation_cells [] = []
  operation_cells (op ∷ rest) = size_cells op r.sizes ++ operation_cells rest

  unfoldable pub cells : List Cell
  cells = operation_cells r.operations

  length-repeat_cells :
      (op : String) (size jettys index more : ℕ)
      → length (repeat_cells op size jettys index more) ≡ more
  unfolding repeat_cells
  length-repeat_cells op size jettys index zero = refl
  length-repeat_cells op size jettys index (suc more) =
      ap suc (length-repeat_cells op size jettys (suc index) more)

  length-jetty_cells :
      (op : String) (size : ℕ) (js : List ℕ)
      → length (jetty_cells op size js) ≡ length js * (r.warmups + r.repeats)
  unfolding jetty_cells
  length-jetty_cells op size [] = omega arith
  length-jetty_cells op size (j ∷ js) =
      length-append (repeat_cells op size j 0 (r.warmups + r.repeats)) (jetty_cells op size js)
      ∙ grind (
        arith,
        length-repeat_cells op size j 0 (r.warmups + r.repeats),
        length-jetty_cells op size js,
      )

  length-size_cells :
      (op : String) (ss : List ℕ)
      → length (size_cells op ss) ≡ length ss * (length r.jettys * (r.warmups + r.repeats))
  unfolding size_cells
  length-size_cells op [] = omega arith
  length-size_cells op (s ∷ ss) =
      length-append (jetty_cells op s r.jettys) (size_cells op ss)
      ∙ grind (arith, length-jetty_cells op s r.jettys, length-size_cells op ss)

  length-operation_cells :
      (os : List String)
      → length (operation_cells os)
        ≡ length os * (length r.sizes * (length r.jettys * (r.warmups + r.repeats)))
  unfolding operation_cells
  length-operation_cells [] = omega arith
  length-operation_cells (o ∷ os) =
      length-append (size_cells o r.sizes) (operation_cells os)
      ∙ grind (arith, length-size_cells o r.sizes, length-operation_cells os)

  pub length-cells : length cells ≡ runs_of r
  unfolding cells runs_of
  length-cells = length-operation_cells r.operations ∙ grind arith

module _ {E M : Type 0} (execute : Trial → Result E M) (simulator : String) (r : Recipe) where
  -- One pass over a list of points.
  unfoldable pub run_cells : List Cell → Progress M → Outcome E M
  run_cells [] p = (none, p)
  run_cells (c ∷ cs) p = and_then (run_cell execute simulator r c p) λ p'. run_cells cs p'

  and_then_assoc :
      (o : Outcome E M) (f g : Progress M → Outcome E M)
      → and_then (and_then o f) g ≡ and_then o (λ p. and_then (f p) g)
  unfolding and_then
  and_then_assoc (none, p) f g = refl
  and_then_assoc (some e, p) f g = refl

  and_then_ap :
      (o : Outcome E M) (f g : Progress M → Outcome E M)
      → ((p : Progress M) → f p ≡ g p)
      → and_then o f ≡ and_then o g
  unfolding and_then
  and_then_ap (none, p) f g h = h p
  and_then_ap (some e, p) f g h = refl

  run_cells-append :
      (xs ys : List Cell) (p : Progress M)
      → run_cells (xs ++ ys) p ≡ and_then (run_cells xs p) (run_cells ys)
  unfolding run_cells and_then
  run_cells-append [] ys p = refl
  run_cells-append (x ∷ xs) ys p =
      and_then_ap (run_cell execute simulator r x p) _ _ (run_cells-append xs ys)
      ∙ sym (and_then_assoc (run_cell execute simulator r x p) (run_cells xs) (run_cells ys))

  repeat_loop-run_cells :
      (op : String) (size jettys index more : ℕ) (p : Progress M)
      → repeat_loop execute simulator r op size jettys index more p
        ≡ run_cells (repeat_cells op size jettys index more) p
  unfolding repeat_loop repeat_cells run_cells
  repeat_loop-run_cells op size jettys index zero p = refl
  repeat_loop-run_cells op size jettys index (suc more) p =
      and_then_ap _ _ _ (repeat_loop-run_cells op size jettys (suc index) more)

  -- A loop whose body is a pass, and whose rest is one.
  joined :
      (xs ys : List Cell) (p : Progress M) (o : Outcome E M) (next : Progress M → Outcome E M)
      → o ≡ run_cells xs p
      → ((p' : Progress M) → next p' ≡ run_cells ys p')
      → and_then o next ≡ run_cells (xs ++ ys) p
  joined xs ys p o next first rest =
      ap (λ o'. and_then o' next) first
      ∙ and_then_ap (run_cells xs p) next (run_cells ys) rest
      ∙ sym (run_cells-append xs ys p)

  jetty_loop-run_cells :
      (op : String) (size : ℕ) (js : List ℕ) (p : Progress M)
      → jetty_loop execute simulator r op size js p ≡ run_cells (jetty_cells r op size js) p
  unfolding jetty_loop jetty_cells run_cells
  jetty_loop-run_cells op size [] p = refl
  jetty_loop-run_cells op size (j ∷ js) p =
      joined _ _ p _ _ (repeat_loop-run_cells op size j 0 (r.warmups + r.repeats) p)
        (jetty_loop-run_cells op size js)

  size_loop-run_cells :
      (op : String) (ss : List ℕ) (p : Progress M)
      → size_loop execute simulator r op ss p ≡ run_cells (size_cells r op ss) p
  unfolding size_loop size_cells run_cells
  size_loop-run_cells op [] p = refl
  size_loop-run_cells op (s ∷ ss) p =
      joined _ _ p _ _ (jetty_loop-run_cells op s r.jettys p) (size_loop-run_cells op ss)

  operation_loop-run_cells :
      (os : List String) (p : Progress M)
      → operation_loop execute simulator r os p ≡ run_cells (operation_cells r os) p
  unfolding operation_loop operation_cells run_cells
  operation_loop-run_cells [] p = refl
  operation_loop-run_cells (o ∷ os) p =
      joined _ _ p _ _ (size_loop-run_cells o r.sizes p) (operation_loop-run_cells os)

  -- The four loops of `run` are one pass over the points of the recipe.
  pub run_trials-run_cells : run_trials execute simulator r ≡ run_cells (cells r) fresh
  unfolding run_trials cells
  run_trials-run_cells = operation_loop-run_cells r.operations fresh
