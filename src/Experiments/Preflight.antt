-- ===== src/Experiments/Preflight.antt =====
-- ubsim_lab/experiments.py: `checkpoint_availability` and `preflight`.
pub mod Checks
pub mod Sized
pub mod Cleared
use openurma_gem5_lab.Platform.{Platform, environ_or, device_binary, adapter_binary}
use openurma_gem5_lab.Prelude.{
  ℕ, zero, suc, ◌+◌, max, String, ◌<>◌, Bool, true, false, not, ◌&&◌, ◌||◌, List, [], ◌∷◌, ◌++◌,
  ◌==◌, nat_eq, string_eq, if◌then◌else◌, Option, some, none, all, length, map, ◌≡◌, refl,
}
use openurma_gem5_lab.Prelude.Dict.{Dict, lookup}
use openurma_gem5_lab.Prelude.Int.{ℤ, ◌-ℤ◌}
use openurma_gem5_lab.Prelude.Text.{str}
use openurma_gem5_lab.Prelude.Result.{Result, ok, err, ◌>>=◌}
use openurma_gem5_lab.Json.{Json, obj, arr, items, members}
use openurma_gem5_lab.Topology.Fields.{Fault}
use openurma_gem5_lab.Topology.Plan.{
  compile_topology, Plan, MachinePlan, gem5_machine, qemu_machine,
}
use openurma_gem5_lab.Experiments.Recipe.{RecipeError, validate_recipe}
use openurma_gem5_lab.Topology.Nodes.{Simulator, gem5, qemu, simulator_eq}
use openurma_gem5_lab.QemuPorts.{Bases, port_range, flat, qemu_ports}
use openurma_gem5_lab.Config.{Values, Spec, ConfigError, missing, resolve_gem5}
use openurma_gem5_lab.Checkpoint.{Checkpoint, select_compatible_checkpoint}
use openurma_gem5_lab.Experiments.Reports.{
  Host, Runtime, LaunchMode, direct, restore, cold, Availability, mode_of, value_at, Label,
  topology, occupancy, same_topology, launch, artifacts, host_memory, local_ports, valid_recipe,
  hosts_running, gem5_timing, network, terminal, Report, PreflightError, bad_topology, bad_config,
  topology_of, configured, get_or_default, all_ok, other_of, is_same, largest_memory, is_valid,
  is_modern, all_modern, checks_in_order,
}

module _ (host : Host) where
  -- The call of `_select_compatible_checkpoint`, if the plan asks for one.
  unfoldable pub matching_checkpoint : Plan → Values → String → Option String
  matching_checkpoint plan resolved image =
      if plan.checkpoint == "auto"
      then select_compatible_checkpoint resolved (length plan.node_ids) (host.image_hash image)
          host.checkpoints
      else none

  unfoldable pub checkpoint_availability : Spec → Plan → Result ConfigError Availability
  unfolding value_at mode_of
  checkpoint_availability spec plan =
      if not (plan.simulator == gem5)
      then ok (record { checkpoint = none; launch_mode = direct; resolved = [] })
      else do
        resolved ← resolve_gem5 host.platform.root host.defaults spec plan
        image ← value_at resolved "initrd_path"
        ok (record {
          checkpoint = matching_checkpoint plan resolved image;
          launch_mode = mode_of (matching_checkpoint plan resolved image);
          resolved = resolved;
        })

  -- The files that a start needs, with those to be executable marked.
  unfoldable pub gem5_artifacts : String → List (String × Bool)
  unfolding environ_or device_binary adapter_binary
  gem5_artifacts initrd =
      (
        environ_or host.platform "UBSIM_GEM5" (
            host.platform.root
            <> (if host.platform.darwin
                then "gem5/build/ARM_MAC/gem5.opt"
                else "gem5/build/ARM/gem5.opt")),
        true,
      )
      ∷ (
        environ_or host.platform "UBSIM_KERNEL"
            (host.platform.root <> "artifacts/kernel-64k-20261015/vmlinux"),
        false,
      )
      ∷ (
        environ_or host.platform "UBSIM_CONFIG" (host.platform.root <> "configs/arm64_fs.py"),
        false,
      )
      ∷ (environ_or host.platform "UBSIM_UDMA_DEVICE_BINARY" (device_binary host.platform), true)
      ∷ (environ_or host.platform "UBSIM_UB_SWITCH_BINARY" (adapter_binary host.platform), true)
      ∷ (initrd, false)
      ∷ []

  unfoldable pub qemu_device : String
  unfolding environ_or device_binary
  qemu_device =
      let configured =
        environ_or host.platform "UBSIM_UDMA_DEVICE_BINARY" (device_binary host.platform) in
      if host.is_file configured
      then configured
      else host.platform.root <> "artifacts/udma-device-sim-build/udma-device-sim"

  unfoldable pub qemu_artifacts : List (String × Bool)
  unfolding environ_or qemu_device adapter_binary
  qemu_artifacts =
      (
        environ_or host.platform "UBSIM_QEMU"
            (host.platform.root <> "sources/qemu-11.1.1/build/qemu-system-aarch64"),
        true,
      )
      ∷ (
        environ_or host.platform "UBSIM_QEMU_KERNEL"
            (host.platform.root <> "artifacts/kernel-64k-20261015/Image"),
        false,
      )
      ∷ (
        environ_or host.platform "UBSIM_INITRD"
            (host.platform.root <> "out/official-udma-64k-20261015.cpio.gz"),
        false,
      )
      ∷ (qemu_device, true)
      ∷ (environ_or host.platform "UBSIM_NS3UB_ADAPTER" (adapter_binary host.platform), true)
      ∷ []

  -- `not missing`
  unfoldable pub artifacts_there : List (String × Bool) → Bool
  artifacts_there [] = true
  artifacts_there ((path, runs) ∷ rest) =
      (host.is_file path && (not runs || host.is_executable path)) && artifacts_there rest

  -- `_ports`, and for QEMU the ports of all its listeners.
  unfoldable pub gem5_ports : ℕ → List ℤ
  gem5_ports count = let ports = host.uarts gem5 in port_range ports.0 (ports.1 -ℤ ports.0) count

  unfoldable pub free_check : List ℤ → List (Label × Bool)
  free_check [] = []
  free_check (port ∷ rest) = (local_ports, all host.port_free (port ∷ rest)) ∷ []

  unfoldable pub port_checks : Simulator → ℕ → List (Label × Bool)
  unfolding gem5_ports free_check
  port_checks gem5 count = free_check (gem5_ports count)
  port_checks qemu count = elim (qemu_ports host.bases count) [
    | err e ↦ (local_ports, false) ∷ []
    | ok ports ↦ free_check (flat ports)
  ]

  -- The check of the start's files: for gem5 only if it is not running.
  unfoldable pub artifact_checks : Simulator → Bool → Values → List (Label × Bool)
  unfolding gem5_artifacts qemu_artifacts artifacts_there
  artifact_checks gem5 active [] = []
  artifact_checks gem5 true (entry ∷ resolved) = []
  artifact_checks gem5 false (entry ∷ resolved) =
      (
        artifacts,
        artifacts_there (
            gem5_artifacts (
              get_or_default "initrd_path"
                (host.platform.root <> "out/official-udma-64k-20261015.cpio.gz")
                (entry ∷ resolved))),
      )
      ∷ []
  artifact_checks qemu active resolved = (artifacts, artifacts_there qemu_artifacts) ∷ []

  -- The arguments of the memory guard.
  unfoldable pub modeled_memory : Plan → Values → Result ConfigError String
  unfolding value_at
  modeled_memory plan resolved =
      if plan.simulator == gem5
      then value_at resolved "memory_size"
      else ok (str (largest_memory plan.machines) <> "MiB")

  unfoldable pub memory_check : Plan → String → Label × Bool
  memory_check plan size = (
    host_memory,
    host.memory_guard (if plan.simulator == gem5 then "start" else "qemu-start")
          (length plan.node_ids) size
        == 0,
  )

  -- The checks of a start, which a running simulator does not need.
  unfoldable pub start_checks : Plan → Bool → Values → Result ConfigError (List (Label × Bool))
  unfolding modeled_memory memory_check port_checks
  start_checks plan true resolved = ok []
  start_checks plan false resolved = do
    size ← modeled_memory plan resolved
    ok (memory_check plan size ∷ port_checks plan.simulator (length plan.node_ids))

  -- The checks of the measurements; `spec` is what is read of the specification `raw`.
  unfoldable pub recipe_checks :
      (Json → String)
      → Json
      → Spec
      → Plan
      → Runtime
      → Bool
      → Bool
      → Option Json
      → List (Label × Bool)
  unfolding is_valid all_modern
  recipe_checks text_of raw spec plan own same terminal_busy none = []
  recipe_checks text_of raw spec plan own same terminal_busy (some recipe) =
      (valid_recipe, is_valid (validate_recipe text_of recipe raw))
        ∷ (hosts_running, same)
        ∷ (if plan.simulator == gem5
            then (gem5_timing, all_modern raw && spec.sync == "required") ∷ []
            else [])
      ++ (if same && plan.simulator == gem5 then (network, true) ∷ [] else [])
      ++ (terminal, not terminal_busy) ∷ []

  -- The check that the running topology is the given one.
  unfoldable pub config_checks : Json → Runtime → Bool → Option Json → List (Label × Bool)
  config_checks raw own true (some recipe) =
      (same_topology, host.launched_same own.run_dir raw) ∷ []
  config_checks raw own _ _ = []

  -- `preflight`; the texts of the checks are left out.
  unfoldable pub preflight :
      (Json → String)
      → Json
      → Spec
      → (Simulator → Runtime)
      → Option Json
      → Bool
      → Result PreflightError Report
  unfolding all_ok other_of is_same checkpoint_availability config_checks artifact_checks
      start_checks recipe_checks
  preflight text_of raw spec runtime recipe terminal_busy = do
    plan ← topology_of raw
    let own : Runtime = runtime plan.simulator
    let other : Runtime = runtime (other_of plan.simulator)
    let same : Bool = is_same own plan.title
    availability ← configured (checkpoint_availability spec plan)
    started ← configured (start_checks plan own.active availability.resolved)
    let checks : List (Label × Bool) =
        checks_in_order (not other.active && (not own.active || same))
          (config_checks raw own same recipe)
          (if plan.simulator == gem5 then (launch, true) ∷ [] else [])
          (artifact_checks plan.simulator own.active availability.resolved) started
          (recipe_checks text_of raw spec plan own same terminal_busy recipe)
    ok (record {
      passed = all_ok checks;
      checks = checks;
      checkpoint = availability.checkpoint;
      simulator = plan.simulator;
      running_this_task = same;
    })
