-- ===== src/Tests/Launcher.antt =====
-- ubsim_lab/config_launcher.py: `start_qemu` with two hosts, whose start is done or fails.
use openurma_gem5_lab.Prelude.{
  has_repeat, ◌≡◌, ◌≢◌, refl, String, true, false, [], ◌∷◌, some, none, string_eq, nat_eq, ◌==◌,
  if◌then◌else◌,
}
use openurma_gem5_lab.Prelude.Dict.{lookup, insert}
use openurma_gem5_lab.Prelude.Int.{pos, ◌+ℤ◌, ◌-ℤ◌}
use openurma_gem5_lab.Prelude.Text.{str, str_ℤ, times_ℤ, hex2}
use openurma_gem5_lab.Prelude.Result.{Result, ok, err, ◌>>=◌ as ◌and_then◌}
use openurma_gem5_lab.Topology.Nodes.{qemu, QemuNode}
use openurma_gem5_lab.Topology.Plan.{Plan, qemu_machine}
use openurma_gem5_lab.Topology.Links.{NodeLink}
use openurma_gem5_lab.QemuPorts.{
  default_bases, port_range, nth_port, port_map, flat, in_range, qemu_ports,
}
use openurma_gem5_lab.Config.{min_latency, min_latency_from, first_rate}
use openurma_gem5_lab.Platform.{environ_or, host_name, arch, device_binary, adapter_binary}
use openurma_gem5_lab.Tests.Config.{spec}
use openurma_gem5_lab.Tests.Preflight.{machine}
use openurma_gem5_lab.Launcher.Process.{
  Process, Spawning, noted, unrecorded, LaunchError, not_spawned, World, untouched, then_run, ◌>>=◌,
  spawn, undoing, rolled_back, terminated,
}
use openurma_gem5_lab.Launcher.Process.Guarded.{IsUp, IsUndone}
use openurma_gem5_lab.Launcher.Settings.{
  Host, setting, check_memory, require_files, check_run_root, wait_sockets,
}
use openurma_gem5_lab.Launcher.Command.{mac_of}
use openurma_gem5_lab.Launcher.Devices.{flag_args, endpoint_args}
use openurma_gem5_lab.Launcher.Gem5.{node_file}
use openurma_gem5_lab.Launcher.QemuSettings.{
  qemu_device_of, mode_name, node_values, common_value, common_values, run_values, prepare_qemu,
}
use openurma_gem5_lab.Launcher.QemuParts.{
  QemuRun, ports_for, qemu_machines, most_memory, first_machine, port_at, of_config, qemu_binary,
  qemu_kernel, qemu_initrd, qemu_fabric, retransmission, knob_values,
}
use openurma_gem5_lab.Launcher.QemuSettings.Ready.{IsReady}
use openurma_gem5_lab.Launcher.QemuDevices.{
  qemu_socket, qemu_device_args, qemu_fabric_args, oob_netdev, icount_args, qemu_args,
  qemu_environment,
}
use openurma_gem5_lab.Launcher.Qemu.{
  start_qemu_devices, qemu_sockets, start_machines, qemu_relay, start_relay, qemu_guard,
  launch_qemu, guarded_qemu, start_qemu,
}
use openurma_gem5_lab.Launcher.Qemu.Started.{
  qemu_files, start_qemu-IsUp, start_qemu-IsUndone, start_qemu-IsReady,
}

abbrev wire : NodeLink
wire = record { rate_gbps = 400; latency_ns = 300 }

abbrev node : QemuNode
node = record { cpu = "max"; cores = 2; memory_mib = 2048 }

abbrev plan : Plan
plan = record {
  title = "two";
  simulator = qemu;
  node_ids = "a" ∷ "b" ∷ [];
  device_ids = "ua" ∷ "ub" ∷ [];
  switch_id = some "leaf";
  fabric_layout = "switch";
  backend = "native-json";
  port_count = 1;
  max_jettys = 47;
  jetty_limit_explicit = false;
  switch_delay_ns = 150;
  sync = "required";
  checkpoint = "cold";
  node_links = wire ∷ wire ∷ [];
  machines = qemu_machine node ∷ qemu_machine node ∷ [];
}

abbrev host_with : (Process → Spawning) → Host
host_with spawning = record {
  platform = machine;
  python = "python3";
  defaults = [];
  checkpoints = [];
  image_hash = λ path. none;
  is_template = λ name. false;
  uarts = (pos 3460, pos 3470);
  bases = default_bases;
  host_latency_ns = pos 500;
  is_running = λ directory. false;
  memory_guard = λ phase nodes size. 0;
  is_file = λ path. true;
  spawning = spawning;
  socket_appears = λ path. true;
  fabric_connects = true;
}

abbrev host : Host
host = host_with (λ p. noted)

-- A host on which the number of the fabric cannot be recorded.
abbrev full_host : Host
full_host =
    host_with
      (λ p. if p.pidfile == "/lab/run-qemu-dual/ub-fabric/ns3.pid" then unrecorded else noted)

started : Host → Result LaunchError String × World
unfolding start_qemu guarded_qemu launch_qemu qemu_guard start_relay qemu_relay start_machines
    qemu_sockets start_qemu_devices qemu_environment qemu_args icount_args oob_netdev
    qemu_fabric_args qemu_device_args qemu_socket prepare_qemu run_values common_values common_value
    node_values mode_name qemu_device_of knob_values retransmission qemu_fabric qemu_initrd
    qemu_kernel qemu_binary of_config port_at first_machine most_memory qemu_machines ports_for
    node_file endpoint_args flag_args mac_of wait_sockets check_run_root require_files check_memory
    setting terminated rolled_back undoing spawn then_run environ_or host_name arch device_binary
    adapter_binary first_rate min_latency min_latency_from qemu_ports in_range flat port_map
    nth_port port_range lookup insert str str_ℤ times_ℤ hex2 ◌+ℤ◌ ◌-ℤ◌ ◌>>=◌ has_repeat ◌and_then◌
started h = start_qemu h spec plan untouched

abbrev up : World
up = (start_qemu host spec plan untouched).1

two_started : start_qemu host spec plan untouched ≡ (ok "/lab/run-qemu-dual", up)
unfolding started
two_started = refl

some_launched : up.events ≢ []
unfolding started
some_launched h = cc

abbrev down : World
down = (start_qemu full_host spec plan untouched).1

two_failed :
    start_qemu full_host spec plan untouched
    ≡ (err (not_spawned "/lab/run-qemu-dual/ub-fabric/ns3.pid"), down)
unfolding started
two_failed = refl

start_qemu-IsUp_example : IsUp (qemu_files 2 2 2 "/lab/run-qemu-dual") up
start_qemu-IsUp_example = start_qemu-IsUp host spec plan "/lab/run-qemu-dual" up two_started

start_qemu-IsUndone_example : IsUndone full_host.spawning down
start_qemu-IsUndone_example =
    start_qemu-IsUndone full_host spec plan (not_spawned "/lab/run-qemu-dual/ub-fabric/ns3.pid")
      down two_failed

start_qemu-IsReady_example : (run : QemuRun) × IsReady host spec plan run
start_qemu-IsReady_example =
    start_qemu-IsReady host spec plan (start_qemu host spec plan untouched) refl some_launched
