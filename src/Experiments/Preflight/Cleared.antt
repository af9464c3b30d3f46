-- ===== src/Experiments/Preflight/Cleared.antt =====
-- ubsim_lab/experiments.py: what a passed `preflight` has found.
use mathlib.Core.Path.{subst}
use openurma_gem5_lab.Experiments.Preflight.Checks.{
  ArePortsFree, all_ok-checks_in_order, port_checks-ArePortsFree, start_checks_lem,
  memory_check_lem, recipe_checks-some, recipe_checks_idle, is_valid_lem, is_same_lem,
  config_checks_same,
}
use openurma_gem5_lab.Prelude.{
  String, Bool, true, false, not, ◌&&◌, ◌||◌, List, Option, some, none, length, ◌≡◌, arith,
  if◌then◌else◌, ◌==◌, nat_eq, string_eq, ap, sym, ◌∙◌,
}
use openurma_gem5_lab.Prelude.Result.{Result, ok, err, Ensures, Ensures-ok, Ensures-bind}
use openurma_gem5_lab.Json.{Json}
use openurma_gem5_lab.Topology.Nodes.{Simulator, gem5, simulator_eq}
use openurma_gem5_lab.Topology.Plan.{Plan, compile_topology}
use openurma_gem5_lab.Experiments.Preflight.Sized.{
  IsModeled, resolved_for, modeled_memory-IsModeled,
}
use openurma_gem5_lab.Config.{Values, Spec, ConfigError, resolve_gem5}
use openurma_gem5_lab.Experiments.Recipe.{Recipe, validate_recipe}
use openurma_gem5_lab.Experiments.Preflight.{
  preflight, start_checks, recipe_checks, config_checks, Fault,
}
use openurma_gem5_lab.Experiments.Reports.{
  Host, Runtime, Report, Label, PreflightError, other_of, is_same, topology_of, configured, all_ok,
  bad_topology,
}

compiled_once :
    (raw : Json) (plan plan' : Plan)
    → compile_topology raw ≡ ok plan
    → compile_topology raw ≡ ok plan'
    → plan' ≡ plan
compiled_once raw plan plan' h k = cc

topology_of_ok :
    (raw : Json) (plan : Plan) → topology_of raw ≡ ok plan → compile_topology raw ≡ ok plan
unfolding topology_of
topology_of_ok raw plan h = read (compile_topology raw) plan h
  where
    read :
        (r : Result Fault Plan) (p : Plan)
        → ◌≡◌ {A = Result PreflightError Plan}
            (elim r [ ok q ↦ ok q | err e ↦ err (bad_topology e) ])
            (ok p)
        → r ≡ ok p
    read (ok q) p e = cc
    read (err f) p e = cc

-- The host can start the plan, and no measurement was asked for.
pub record IsStartable (host : Host) (spec : Spec) (plan : Plan) (other : Runtime)
    (recipe : Option Json) : Type 0 where
  pub alone : other.active ≡ false
  pub size : String
  pub modeled : IsModeled host spec plan size
  pub memory :
      host.memory_guard
        (if plan.simulator == gem5 then "start" else "qemu-start")
        (length plan.node_ids)
        size
      ≡ 0
  pub ports : ArePortsFree host plan.simulator (length plan.node_ids)
  pub unmeasured : recipe ≡ none

-- The running simulator can measure the recipe.
pub record IsMeasurable (host : Host) (text_of : Json → String) (raw : Json) (plan : Plan)
    (own other : Runtime) (recipe : Json) (terminal_busy : Bool) : Type 0 where
  pub valid : (r : Recipe) × (validate_recipe text_of recipe raw ≡ ok r)
  pub running : own.active ≡ true
  pub named : own.topology_name ≡ some plan.title
  pub alone : other.active ≡ false
  pub unchanged : host.launched_same own.run_dir raw ≡ true
  pub quiet : terminal_busy ≡ false

module _ (host : Host) where
  -- The list of the checks and what leads to it.
  record Parts (text_of : Json → String) (raw : Json) (spec : Spec) (plan : Plan)
      (runtime : Simulator → Runtime) (recipe : Option Json) (busy : Bool) : Type 0 where
    resolved : Values
    settings :
        plan.simulator ≡ gem5
        → resolve_gem5 host.platform.root host.defaults spec plan ≡ ok resolved
    started : List (Label × Bool)
    starts : start_checks host plan (runtime plan.simulator).active resolved ≡ ok started
    occupancy :
        (not (runtime (other_of plan.simulator)).active
          && (not (runtime plan.simulator).active || is_same (runtime plan.simulator) plan.title))
        ≡ true
    config :
        all_ok (
          config_checks host raw
            (runtime plan.simulator)
            (is_same (runtime plan.simulator) plan.title)
            recipe)
        ≡ true
    begun : all_ok started ≡ true
    measured :
        all_ok (
          recipe_checks host text_of raw spec plan
            (runtime plan.simulator)
            (is_same (runtime plan.simulator) plan.title)
            busy
            recipe)
        ≡ true

  configured_ok : {A : Type 0} (r : Result ConfigError A) (a : A) → configured r ≡ ok a → r ≡ ok a
  unfolding configured
  configured_ok (ok b) a h = cc
  configured_ok (err e) a h = cc

  preflight-Parts :
      (text_of : Json → String) (raw : Json) (spec : Spec) (runtime : Simulator → Runtime)
      (recipe : Option Json) (busy : Bool)
      → Ensures
          (λ report.
            report.passed ≡ true
            → (plan : Plan) × (compile_topology raw ≡ ok plan)
              × Parts text_of raw spec plan runtime recipe busy)
          (preflight host text_of raw spec runtime recipe busy)
  unfolding preflight
  preflight-Parts text_of raw spec runtime recipe busy = Ensures-bind _ _ λ plan read.
      Ensures-bind _ _ λ availability known. Ensures-bind _ _ λ started starts. Ensures-ok _ λ h.
        let facts = all_ok-checks_in_order _ _ _ _ _ _ h in
        (
          plan,
          topology_of_ok raw plan read,
          record {
            resolved = availability.resolved;
            settings = (resolved_for host spec plan).holds availability (configured_ok _ _ known);
            started = started;
            starts = configured_ok _ _ starts;
            occupancy = facts.0;
            config = facts.1;
            begun = facts.2;
            measured = facts.3;
          },
        )

  Parts-IsStartable :
      {text_of : Json → String} {raw : Json} {spec : Spec} {plan : Plan}
      {runtime : Simulator → Runtime} {recipe : Option Json} {busy : Bool}
      → Parts text_of raw spec plan runtime recipe busy
      → (runtime plan.simulator).active ≡ false
      → IsStartable host spec plan (runtime (other_of plan.simulator)) recipe
  Parts-IsStartable {text_of} {raw} {spec} {plan} {runtime} {recipe} {busy} p idle =
      let start = start_checks_lem host plan _ p.resolved p.started idle p.starts in
      let memory = memory_check_lem host plan start.0 _ (ap all_ok (sym start.2) ∙ p.begun) in
      record {
        alone = ground arith;
        size = start.0;
        modeled = modeled_memory-IsModeled host spec plan p.resolved start.0 p.settings start.1;
        memory = memory.0;
        ports = port_checks-ArePortsFree host plan.simulator _ memory.1;
        unmeasured = recipe_checks_idle host text_of raw spec plan _ recipe busy idle p.measured;
      }

  Parts-IsMeasurable :
      {text_of : Json → String} {raw : Json} {spec : Spec} {plan : Plan}
      {runtime : Simulator → Runtime} {recipe : Json} {busy : Bool}
      → Parts text_of raw spec plan runtime (some recipe) busy
      → IsMeasurable host text_of raw plan
          (runtime plan.simulator)
          (runtime (other_of plan.simulator))
          recipe
          busy
  Parts-IsMeasurable {text_of} {raw} {spec} {plan} {runtime} {recipe} {busy} p =
      let own : Runtime = runtime plan.simulator in
      let found =
        recipe_checks-some host text_of raw spec plan own (is_same own plan.title) recipe busy
          p.measured in
      let same = is_same_lem host own plan.title found.1 in
      record {
        valid = is_valid_lem host _ found.0;
        running = same.0;
        named = same.1;
        alone = ground arith;
        unchanged = config_checks_same host raw own _ recipe found.1 p.config;
        quiet = found.2;
      }

-- If `preflight` passes and the simulator of the plan is not running, then the other simulator is
-- not running either, the memory guard accepts a start of the plan's nodes with the memory of the
-- resolved settings (gem5) or of the largest machine (QEMU), every port that the start takes can be
-- bound, and no recipe was given.
pub preflight-IsStartable :
    (host : Host) (text_of : Json → String) (raw : Json) (spec : Spec) (plan : Plan)
    (runtime : Simulator → Runtime) (recipe : Option Json) (busy : Bool) (report : Report)
    → compile_topology raw ≡ ok plan
    → preflight host text_of raw spec runtime recipe busy ≡ ok report
    → report.passed ≡ true
    → (runtime plan.simulator).active ≡ false
    → IsStartable host spec plan (runtime (other_of plan.simulator)) recipe
preflight-IsStartable host text_of raw spec plan runtime recipe busy report compiled h passed =
    let found = (preflight-Parts host text_of raw spec runtime recipe busy).holds report h passed in
    subst
      (λ p.
        (runtime p.simulator).active ≡ false
        → IsStartable host spec p (runtime (other_of p.simulator)) recipe)
      (compiled_once raw plan found.0 compiled found.1) (Parts-IsStartable host found.2)

-- If `preflight` passes with a recipe, then the recipe is valid for the topology, the plan's
-- simulator runs this topology, unchanged since its start, the other simulator does not run, and no
-- terminal of a host is open.
pub preflight-IsMeasurable :
    (host : Host) (text_of : Json → String) (raw : Json) (spec : Spec) (plan : Plan)
    (runtime : Simulator → Runtime) (recipe : Json) (busy : Bool) (report : Report)
    → compile_topology raw ≡ ok plan
    → preflight host text_of raw spec runtime (some recipe) busy ≡ ok report
    → report.passed ≡ true
    → IsMeasurable host text_of raw plan
        (runtime plan.simulator)
        (runtime (other_of plan.simulator))
        recipe
        busy
preflight-IsMeasurable host text_of raw spec plan runtime recipe busy report compiled h passed =
    let found =
      (preflight-Parts host text_of raw spec runtime (some recipe) busy).holds report h passed in
    subst
      (λ p.
        IsMeasurable host text_of raw p (runtime p.simulator) (runtime (other_of p.simulator))
          recipe busy)
      (compiled_once raw plan found.0 compiled found.1) (Parts-IsMeasurable host found.2)
