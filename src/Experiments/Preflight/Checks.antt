-- ===== src/Experiments/Preflight/Checks.antt =====
-- ubsim_lab/experiments.py: what each of the checks of `preflight` has found, if it passes.
use openurma_gem5_lab.Prelude.{
  ℕ, String, Bool, true, false, not, ◌&&◌, List, [], ◌∷◌, ◌++◌, Option, some, none, All, All_of_all,
  length, ◌≡◌, refl, arith, if◌then◌else◌, ◌==◌, nat_eq, string_eq, ap,
}
use openurma_gem5_lab.Prelude.Int.{ℤ}
use openurma_gem5_lab.Prelude.Result.{Result, ok, err, ◌>>=◌}
use openurma_gem5_lab.Json.{Json}
use openurma_gem5_lab.Topology.Nodes.{Simulator, gem5, qemu, simulator_eq}
use openurma_gem5_lab.Topology.Plan.{Plan}
use openurma_gem5_lab.QemuPorts.{Ports, flat, qemu_ports, PortError}
use openurma_gem5_lab.Config.{Values, Spec, ConfigError}
use openurma_gem5_lab.Experiments.Recipe.{validate_recipe}
use openurma_gem5_lab.Experiments.Preflight.{
  start_checks, port_checks, free_check, gem5_ports, modeled_memory, memory_check, recipe_checks,
  config_checks, RecipeError,
}
use openurma_gem5_lab.Experiments.Reports.{
  Host, Runtime, Label, is_same, is_valid, valid_recipe, hosts_running, terminal, all_ok,
  local_ports, checks_in_order, topology, occupancy, gem5_timing, all_modern, network,
}

pub all_ok-append :
    (xs ys : List (Label × Bool))
    → all_ok (xs ++ ys) ≡ true
    → (all_ok xs ≡ true) × (all_ok ys ≡ true)
unfolding all_ok
all_ok-append [] ys h = (refl, h)
all_ok-append ((label, passed) ∷ xs) ys h =
    let rest = all_ok-append xs ys (ground arith) in (ground arith, rest.1)

-- What the parts of the list of checks say if all of it passes.
pub all_ok-checks_in_order :
    (y : Bool) (a b c d e : List (Label × Bool))
    → all_ok (checks_in_order y a b c d e) ≡ true
    → (y ≡ true) × (all_ok a ≡ true) × (all_ok d ≡ true) × (all_ok e ≡ true)
unfolding all_ok checks_in_order
all_ok-checks_in_order y a b c d e h =
    let last = all_ok-append ((topology, true) ∷ (occupancy, y) ∷ a ++ b ++ c ++ d) e h in
    let third = all_ok-append ((topology, true) ∷ (occupancy, y) ∷ a ++ b ++ c) d last.0 in
    let second = all_ok-append ((topology, true) ∷ (occupancy, y) ∷ a ++ b) c third.0 in
    let first = all_ok-append ((topology, true) ∷ (occupancy, y) ∷ a) b second.0 in
    let front = first.0 in (ground arith, ground arith, third.1, last.1)

all_ok-single : (label : Label) (b : Bool) → all_ok ((label, b) ∷ []) ≡ true → b ≡ true
unfolding all_ok
all_ok-single label b h = ground arith

-- The ports that a start takes can be bound.
unfoldable pub ArePortsFree : Host → Simulator → ℕ → Type 0
ArePortsFree host gem5 count = All (λ p. host.port_free p ≡ true) (gem5_ports host count)
ArePortsFree host qemu count =
    (ports : Ports) × (qemu_ports host.bases count ≡ ok ports)
    × All (λ p. host.port_free p ≡ true) (flat ports)

module _ (host : Host) where
  free_check_lem :
      (ports : List ℤ)
      → all_ok (free_check host ports) ≡ true
      → All (λ p. host.port_free p ≡ true) ports
  unfolding free_check
  free_check_lem [] h = tt
  free_check_lem (port ∷ rest) h =
      All_of_all host.port_free (port ∷ rest) (all_ok-single local_ports _ h)

  free_or_refused :
      (r : Result PortError Ports)
      → all_ok
          (elim r [ err e ↦ (local_ports, false) ∷ [] | ok ports ↦ free_check host (flat ports) ])
        ≡ true
      → (ports : Ports) × (r ≡ ok ports) × All (λ p. host.port_free p ≡ true) (flat ports)
  unfolding all_ok
  free_or_refused (ok ports) h = (ports, refl, free_check_lem (flat ports) h)
  free_or_refused (err e) h = cc

  pub port_checks-ArePortsFree :
      (simulator : Simulator) (count : ℕ)
      → all_ok (port_checks host simulator count) ≡ true
      → ArePortsFree host simulator count
  unfolding port_checks ArePortsFree
  port_checks-ArePortsFree gem5 count h = free_check_lem (gem5_ports host count) h
  port_checks-ArePortsFree qemu count h = free_or_refused (qemu_ports host.bases count) h

  pub start_checks_lem :
      (plan : Plan) (active : Bool) (resolved : Values) (started : List (Label × Bool))
      → active ≡ false
      → start_checks host plan active resolved ≡ ok started
      → (size : String) × (modeled_memory host plan resolved ≡ ok size)
        × (started
            ≡ memory_check host plan size ∷ port_checks host plan.simulator (length plan.node_ids))
  unfolding start_checks ◌>>=◌
  start_checks_lem plan true resolved started idle h = cc
  start_checks_lem plan false resolved started idle h =
      sized (modeled_memory host plan resolved) started refl h
    where
      sized :
          (r : Result ConfigError String) (list : List (Label × Bool))
          → modeled_memory host plan resolved ≡ r
          → ◌≡◌ {A = Result ConfigError (List (Label × Bool))}
              (r >>= λ size. ok (
                memory_check host plan size
                ∷ port_checks host plan.simulator (length plan.node_ids)))
              (ok list)
          → (size : String) × (modeled_memory host plan resolved ≡ ok size)
            × (list
                ≡ memory_check host plan size
                  ∷ port_checks host plan.simulator (length plan.node_ids))
      sized (ok size) list e h = (size, e, cc)
      sized (err f) list e h = cc

  pub memory_check_lem :
      (plan : Plan) (size : String) (rest : List (Label × Bool))
      → all_ok (memory_check host plan size ∷ rest) ≡ true
      → (host.memory_guard
            (if plan.simulator == gem5 then "start" else "qemu-start")
            (length plan.node_ids)
            size
          ≡ 0)
        × (all_ok rest ≡ true)
  unfolding all_ok memory_check
  memory_check_lem plan size rest h = (ground (arith, nat_eq.test_iff), ground arith)

  pub recipe_checks-some :
      (text_of : Json → String) (raw : Json) (spec : Spec) (plan : Plan) (own : Runtime)
      (same : Bool) (recipe : Json) (busy : Bool)
      → all_ok (recipe_checks host text_of raw spec plan own same busy (some recipe)) ≡ true
      → (is_valid (validate_recipe text_of recipe raw) ≡ true) × (same ≡ true) × (busy ≡ false)
  unfolding recipe_checks all_ok
  recipe_checks-some text_of raw spec plan own same recipe busy h =
      let timing : List (Label × Bool) =
        if plan.simulator == gem5
        then (gem5_timing, all_modern raw && spec.sync == "required") ∷ []
        else [] in
      let front : List (Label × Bool) =
        (valid_recipe, is_valid (validate_recipe text_of recipe raw))
        ∷ (hosts_running, same)
        ∷ timing in
      let ready : List (Label × Bool) =
        if same && plan.simulator == gem5 then (network, true) ∷ [] else [] in
      let last = all_ok-append (front ++ ready) ((terminal, not busy) ∷ []) h in
      let first = all_ok-append front ready last.0 in (ground arith, ground arith, ground arith)

  -- A recipe is measured only by what is running.
  pub recipe_checks_idle :
      (text_of : Json → String) (raw : Json) (spec : Spec) (plan : Plan) (own : Runtime)
      (recipe : Option Json) (busy : Bool)
      → own.active ≡ false
      → all_ok (recipe_checks host text_of raw spec plan own (is_same own plan.title) busy recipe)
        ≡ true
      → recipe ≡ none
  unfolding is_same
  recipe_checks_idle text_of raw spec plan own none busy idle h = refl
  recipe_checks_idle text_of raw spec plan own (some recipe) busy idle h =
      let running =
        (recipe_checks-some text_of raw spec plan own (is_same own plan.title) recipe busy h).1 in
      absurd (ground arith)

  pub is_valid_lem :
      {A : Type 0} (r : Result RecipeError A) → is_valid r ≡ true → (a : A) × (r ≡ ok a)
  unfolding is_valid
  is_valid_lem (ok a) h = (a, refl)
  is_valid_lem (err e) h = cc

  pub is_same_lem :
      (own : Runtime) (title : String)
      → is_same own title ≡ true
      → (own.active ≡ true) × (own.topology_name ≡ some title)
  unfolding is_same
  is_same_lem own title h = (ground arith, named own.topology_name (ground arith))
    where
      named :
          (o : Option String)
          → elim o [ none ↦ false | some running ↦ running == title ] ≡ true
          → o ≡ some title
      named none e = cc
      named (some running) e = ap some ((string_eq.test_iff running title).0 e)

  pub config_checks_same :
      (raw : Json) (own : Runtime) (same : Bool) (recipe : Json)
      → same ≡ true
      → all_ok (config_checks host raw own same (some recipe)) ≡ true
      → host.launched_same own.run_dir raw ≡ true
  unfolding config_checks all_ok
  config_checks_same raw own true recipe s h = ground arith
  config_checks_same raw own false recipe s h = cc
