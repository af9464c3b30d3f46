-- ===== src/Experiments/Reports.antt =====
-- ubsim_lab/experiments.py: what `preflight` asks of its machine, and its report.
use openurma_gem5_lab.Platform.{Platform}
use openurma_gem5_lab.Prelude.{
  ℕ, max, String, Bool, true, false, ◌&&◌, List, [], ◌∷◌, ◌++◌, ◌==◌, nat_eq, string_eq, Option,
  some, none, all,
}
use openurma_gem5_lab.Prelude.Dict.{Dict, lookup}
use openurma_gem5_lab.Prelude.Int.{ℤ}
use openurma_gem5_lab.Prelude.Result.{Result, ok, err}
use openurma_gem5_lab.Json.{Json, obj, arr, items, members}
use openurma_gem5_lab.Topology.Fields.{Fault}
use openurma_gem5_lab.Topology.Plan.{
  compile_topology, Plan, MachinePlan, gem5_machine, qemu_machine,
}
use openurma_gem5_lab.Experiments.Recipe.{RecipeError}
use openurma_gem5_lab.Topology.Nodes.{Simulator, gem5, qemu, simulator_eq}
use openurma_gem5_lab.QemuPorts.{Bases}
use openurma_gem5_lab.Config.{Values, ConfigError, missing}
use openurma_gem5_lab.Checkpoint.{Checkpoint}

-- What the two functions ask of the machine that they run on.
pub record Host : Type 0 where
  pub platform : Platform
  pub is_file : String → Bool
  pub is_executable : String → Bool
  pub port_free : ℤ → Bool
  -- The exit status of the memory guard, for a phase, a number of nodes and a size.
  pub memory_guard : String → ℕ → String → ℕ
  -- The ports of `_ports`, and those that `qemu_ports` starts from.
  pub uarts : Simulator → ℤ × ℤ
  pub bases : Bases
  pub defaults : Dict String Values
  pub checkpoints : List Checkpoint
  pub image_hash : String → Option String
  -- Whether the topology in a run's directory can be read and is the one given.
  pub launched_same : String → Json → Bool

-- What `_runtime` says of one simulator.
pub record Runtime : Type 0 where
  pub active : Bool
  pub topology_name : Option String
  pub run_dir : String

pub data LaunchMode : Type 0 where
  direct restore cold : LaunchMode

pub record Availability : Type 0 where
  pub checkpoint : Option String
  pub launch_mode : LaunchMode
  pub resolved : Values

unfoldable pub mode_of : Option String → LaunchMode
mode_of none = cold
mode_of (some name) = restore

-- `values[key]`
unfoldable pub value_at : Values → String → Result ConfigError String
value_at values key = elim (lookup key values) [ none ↦ err (missing key) | some value ↦ ok value ]

-- The `label`s of the checks.
pub data Label : Type 0 where
  topology occupancy same_topology launch artifacts host_memory local_ports : Label
  valid_recipe hosts_running gem5_timing network terminal : Label

pub record Report : Type 0 where
  pub passed : Bool
  pub checks : List (Label × Bool)
  pub checkpoint : Option String
  pub simulator : Simulator
  pub running_this_task : Bool

-- The exceptions that leave `preflight`.
pub data PreflightError : Type 0 where
  bad_topology : Fault → PreflightError
  bad_config : ConfigError → PreflightError

unfoldable pub topology_of : Json → Result PreflightError Plan
topology_of raw = elim (compile_topology raw) [ ok plan ↦ ok plan | err e ↦ err (bad_topology e) ]

unfoldable pub configured : {A : Type 0} → Result ConfigError A → Result PreflightError A
configured (ok a) = ok a
configured (err e) = err (bad_config e)

-- `resolved.get(key, default)`
unfoldable pub get_or_default : String → String → Values → String
get_or_default key default values = elim (lookup key values) [ none ↦ default | some value ↦ value ]

-- `all(item["ok"] for item in checks)`
unfoldable pub all_ok : List (Label × Bool) → Bool
all_ok [] = true
all_ok ((label, passed) ∷ rest) = passed && all_ok rest

unfoldable pub other_of : Simulator → Simulator
other_of gem5 = qemu
other_of qemu = gem5

-- `same`
unfoldable pub is_same : Runtime → String → Bool
is_same own title =
    own.active && elim own.topology_name [ none ↦ false | some running ↦ running == title ]

-- `max(machine["memory_mib"] for machine in plan["machines"])`
unfoldable pub largest_memory : List MachinePlan → ℕ
largest_memory [] = 0
largest_memory (qemu_machine node ∷ rest) = max node.memory_mib (largest_memory rest)
largest_memory (gem5_machine profile ∷ rest) = largest_memory rest

unfoldable pub is_valid : {A : Type 0} → Result RecipeError A → Bool
is_valid (ok a) = true
is_valid (err e) = false

-- `all(node.get("profile") == "modern" for node in spec["nodes"])`, of an accepted specification
unfoldable pub is_modern : Json → Bool
is_modern (obj ms) = elim (lookup "profile" (members ms)) [
  | some (Json.str profile) ↦ profile == "modern"
  | _ ↦ false
]
is_modern _ = false

unfoldable pub all_modern : Json → Bool
unfolding is_modern
all_modern (obj ms) = elim (lookup "nodes" (members ms)) [
  | some (arr nodes) ↦ all is_modern (items nodes)
  | _ ↦ false
]
all_modern _ = false

-- `checks`, in the order of the calls of `check`.
unfoldable pub checks_in_order :
    Bool
    → List (Label × Bool)
    → List (Label × Bool)
    → List (Label × Bool)
    → List (Label × Bool)
    → List (Label × Bool)
    → List (Label × Bool)
checks_in_order free config launch_mode files started measured =
    (topology, true) ∷ (occupancy, free) ∷ config ++ launch_mode ++ files ++ started ++ measured
