-- ===== src/Tests/Preflight.antt =====
-- ubsim_lab/experiments.py: `preflight` of the two heads, before their start and as they run.
use openurma_gem5_lab.Platform.{
  Platform, environ_or, host_name, arch, device_binary, adapter_binary,
}
use openurma_gem5_lab.Prelude.{
  ap, ◌≡◌, refl, true, false, [], ◌∷◌, Option, some, none, string_eq, nat_eq,
}
use openurma_gem5_lab.Prelude.Dict.{lookup, insert, erase}
use openurma_gem5_lab.Prelude.Int.{pos, ◌+ℤ◌, ◌-ℤ◌}
use openurma_gem5_lab.Prelude.Text.{str as decimal}
use openurma_gem5_lab.Prelude.Result.{Result, ok, err, ◌>>=◌}
use openurma_gem5_lab.Json.{Json, str}
use openurma_gem5_lab.Topology.Nodes.{Simulator, gem5, qemu}
use openurma_gem5_lab.Topology.Fields.{Checked}
use openurma_gem5_lab.Topology.Plan.{Plan}
use openurma_gem5_lab.QemuPorts.{default_bases, port_range, nth_port}
use openurma_gem5_lab.Checkpoint.{compatible, select_compatible_checkpoint, is_value}
use openurma_gem5_lab.Config.{
  resolve_gem5, profile_values, min_latency, min_latency_from, first_rate, quantum_of, memory_of,
  initrd_of, public_jettys, update, set_number, set_text, tune, latency_key, rate_key, add_links,
  drop_links,
}
use openurma_gem5_lab.Tests.Topology.{heads, two_heads, heads_compile}
use openurma_gem5_lab.Tests.Config.{defaults, spec}
use openurma_gem5_lab.Tests.Experiments.{one_text, recipe_json, recipe_valid}
use openurma_gem5_lab.Experiments.Preflight.{
  matching_checkpoint, checkpoint_availability, gem5_artifacts, artifacts_there, gem5_ports,
  free_check, port_checks, artifact_checks, modeled_memory, memory_check, start_checks,
  recipe_checks, config_checks, preflight,
}
use openurma_gem5_lab.Experiments.Reports.{
  bad_topology, Host, Runtime, Report, PreflightError, topology, occupancy, same_topology, launch,
  artifacts, host_memory, local_ports, valid_recipe, hosts_running, gem5_timing, network, terminal,
  topology_of, configured, get_or_default, other_of, is_same, is_valid, is_modern, all_modern,
  all_ok, checks_in_order, mode_of, value_at,
}
use openurma_gem5_lab.Experiments.Preflight.Cleared.{
  IsStartable, IsMeasurable, preflight-IsStartable, preflight-IsMeasurable,
}

abbrev pub machine : Platform
machine = record { root = "/lab/"; darwin = false; machine = "x86_64"; environ = λ name. none }

abbrev host : Host
host = record {
  platform = machine;
  is_file = λ path. true;
  is_executable = λ path. true;
  port_free = λ port. true;
  memory_guard = λ phase nodes size. 0;
  uarts = λ simulator. (pos 3460, pos 3470);
  bases = default_bases;
  defaults = defaults;
  checkpoints = [];
  image_hash = λ path. none;
  launched_same = λ run_dir topology. true;
}

abbrev idle : Simulator → Runtime
idle simulator = record { active = false; topology_name = none; run_dir = "/lab/run-dual" }

abbrev running : Simulator → Runtime
running gem5 = record { active = true; topology_name = some "two"; run_dir = "/lab/run-dual" }
running qemu = idle qemu

abbrev idle_report : Report
idle_report = record {
  passed = true;
  checks =
      (topology, true)
      ∷ (occupancy, true)
      ∷ (launch, true)
      ∷ (artifacts, true)
      ∷ (host_memory, true)
      ∷ (local_ports, true)
      ∷ [];
  checkpoint = none;
  simulator = gem5;
  running_this_task = false;
}

abbrev running_report : Report
running_report = record {
  passed = true;
  checks =
      (topology, true)
      ∷ (occupancy, true)
      ∷ (same_topology, true)
      ∷ (launch, true)
      ∷ (valid_recipe, true)
      ∷ (hosts_running, true)
      ∷ (gem5_timing, true)
      ∷ (network, true)
      ∷ (terminal, true)
      ∷ [];
  checkpoint = none;
  simulator = gem5;
  running_this_task = true;
}

heads_topology : topology_of (heads (str "ua")) ≡ ok two_heads
unfolding topology_of
heads_topology =
    ap {A = Checked Plan} {B = Result PreflightError Plan}
      (λ x. elim x [ ok plan ↦ ok plan | err e ↦ err (bad_topology e) ]) heads_compile

checked : (Simulator → Runtime) → Option Json → Result PreflightError Report
unfolding preflight checks_in_order all_ok configured get_or_default other_of is_same is_valid
    is_modern all_modern mode_of value_at matching_checkpoint checkpoint_availability environ_or
    host_name arch device_binary adapter_binary gem5_artifacts artifacts_there gem5_ports free_check
    port_checks artifact_checks modeled_memory memory_check start_checks recipe_checks config_checks
    port_range nth_port select_compatible_checkpoint is_value resolve_gem5 profile_values
    min_latency min_latency_from first_rate quantum_of memory_of initrd_of public_jettys update
    set_number set_text tune latency_key rate_key add_links drop_links lookup insert erase decimal
    ◌>>=◌ ◌+ℤ◌ ◌-ℤ◌ compatible
checked runtime given = preflight host one_text (heads (str "ua")) spec runtime given false

idle_passed : preflight host one_text (heads (str "ua")) spec idle none false ≡ ok idle_report
unfolding checked
idle_passed = rw heads_topology refl

running_passed :
    preflight host one_text (heads (str "ua")) spec running (some recipe_json) false
    ≡ ok running_report
unfolding checked
running_passed = rw (heads_topology, recipe_valid) refl

preflight-IsStartable_example : IsStartable host spec two_heads (idle qemu) none
preflight-IsStartable_example =
    preflight-IsStartable host one_text (heads (str "ua")) spec two_heads idle none false
      idle_report heads_compile idle_passed refl refl

preflight-IsMeasurable_example :
    IsMeasurable host one_text
      (heads (str "ua"))
      two_heads
      (running gem5)
      (running (other_of gem5))
      recipe_json
      false
preflight-IsMeasurable_example =
    preflight-IsMeasurable host one_text (heads (str "ua")) spec two_heads running recipe_json false
      running_report heads_compile running_passed refl
