-- ===== src/Tests/Gem5.antt =====
-- ubsim_lab/config_launcher.py: `start_gem5` with two nodes, whose start is done or fails.
use openurma_gem5_lab.Prelude.{
  ◌≡◌, ◌≢◌, refl, String, true, false, List, [], ◌∷◌, ◌++◌, map, none, range_from, string_eq,
  nat_eq, ◌==◌, if◌then◌else◌,
}
use openurma_gem5_lab.Prelude.Dict.{lookup, insert, erase}
use openurma_gem5_lab.Prelude.Int.{pos, ◌+ℤ◌, ◌-ℤ◌}
use openurma_gem5_lab.Prelude.Text.{str, str_ℤ, times_ℤ, int_of, hex2, replace_dash, drop_text}
use openurma_gem5_lab.Prelude.Result.{Result, ok, err, ◌>>=◌ as ◌and_then◌}
use openurma_gem5_lab.Checkpoint.{
  select_compatible_checkpoint, is_value, compatible, starts_with, ends_with,
}
use openurma_gem5_lab.QemuPorts.{default_bases, nth_port}
use openurma_gem5_lab.Config.{
  Values, resolve_gem5, profile_values, min_latency, min_latency_from, first_rate, quantum_of,
  memory_of, initrd_of, public_jettys, update, set_number, set_text, tune, latency_key, rate_key,
  add_links, drop_links,
}
use openurma_gem5_lab.Platform.{environ_or, host_name, arch, device_binary, adapter_binary}
use openurma_gem5_lab.Tests.Config.{spec}
use openurma_gem5_lab.Tests.Topology.{two_heads}
use openurma_gem5_lab.Tests.Preflight.{machine}
use openurma_gem5_lab.Launcher.Process.{
  Process, Spawning, noted, refused, LaunchError, not_spawned, World, untouched, then_run, ◌>>=◌,
  spawn, undoing, rolled_back, terminated,
}
use openurma_gem5_lab.Launcher.Process.Guarded.{IsUp, IsUndone}
use openurma_gem5_lab.Launcher.Settings.{
  Host, setting, number_of, number_setting, check_memory, require_files, check_run_root,
  wait_sockets, scaled, picoseconds_in, picoseconds,
}
use openurma_gem5_lab.Launcher.Options.{gem5_options, gem5_key, derived_key}
use openurma_gem5_lab.Launcher.Command.{
  option_args, gem5_binary, gem5_config, gem5_kernel, tap_socket, guest_script, mac_of, flag_if,
  restore_args, extra_cmdline, gem5_command,
}
use openurma_gem5_lab.Launcher.Command.Taken.{IsPassed, gem5_command-IsPassed}
use openurma_gem5_lab.Launcher.Options.Table.{option_settings}
use openurma_gem5_lab.Launcher.Devices.{
  device_of_gem5, switch_of_gem5, host_socket, net_socket, link_at, flag_args, state_in,
  device_args, endpoint_args, fabric_args, node_environment,
}
use openurma_gem5_lab.Launcher.Prepare.{
  settings_of, select_for, directory_of, is_template_of, check_template, or_none, sync_of,
  prepare_gem5,
}
use openurma_gem5_lab.Launcher.Prepare.Ready.{IsReady}
use openurma_gem5_lab.Launcher.Gem5.{
  node_file, start_devices, device_sockets, start_nodes, guard_process, relay_process, launch_gem5,
  guarded_gem5, start_gem5,
}
use openurma_gem5_lab.Launcher.Gem5.Started.{
  gem5_files, start_gem5-IsUp, start_gem5-IsUndone, start_gem5-IsReady,
}
use openurma_gem5_lab.Prelude.{All}

-- A profile with a value for every option of gem5 and for what the launcher reads besides.
abbrev profile_settings : Values
profile_settings =
    map (λ option. (gem5_key option, "1")) gem5_options
    ++ ("profile", "modern")
      ∷ ("public_jettys", "0")
      ∷ ("oob_link_speed", "10Gbps")
      ∷ ("provider", "official")
      ∷ ("max_jfs_depth", "8192")
      ∷ ("max_jfr_depth", "8192")
      ∷ ("max_jfc_depth", "524288")
      ∷ ("sq_prefetch_wqebbs", "64")
      ∷ ("sq_fetch_burst_wqebbs", "16")
      ∷ ("sq_fetch_max_outstanding", "4")
      ∷ ("completion_event_slots", "64")
      ∷ ("write_payload_read_window", "8")
      ∷ ("max_read_outstanding", "0")
      ∷ ("ctp_retransmission", "off")
      ∷ ("ctp_rto_ps", "25600000")
      ∷ ("ctp_max_retransmissions", "7")
      ∷ ("pipe_data", "0")
      ∷ ("packet_trace", "0")
      ∷ ("external_udma_poll_interval", "100ns")
      ∷ []

abbrev host_with : (Process → Spawning) → Host
host_with spawning = record {
  platform = machine;
  python = "python3";
  defaults = ("modern", profile_settings) ∷ [];
  checkpoints = [];
  image_hash = λ path. none;
  is_template = λ name. false;
  uarts = (pos 3460, pos 3470);
  bases = default_bases;
  host_latency_ns = pos 500;
  is_running = λ directory. false;
  memory_guard = λ phase nodes size. 0;
  is_file = λ path. true;
  spawning = spawning;
  socket_appears = λ path. true;
  fabric_connects = true;
}

abbrev host : Host
host = host_with (λ p. noted)

-- A host on which the fabric does not start.
abbrev full_host : Host
full_host =
    host_with (λ p. if p.pidfile == "/lab/run-dual/ub-switch/gem5.pid" then refused else noted)

started : Host → Result LaunchError String × World
unfolding start_gem5 guarded_gem5 launch_gem5 relay_process guard_process start_nodes device_sockets
    start_devices node_file prepare_gem5 sync_of or_none check_template is_template_of directory_of
    select_for settings_of node_environment fabric_args endpoint_args device_args state_in flag_args
    link_at net_socket host_socket switch_of_gem5 device_of_gem5 gem5_command extra_cmdline
    restore_args flag_if mac_of guest_script tap_socket gem5_kernel gem5_config gem5_binary
    option_args derived_key gem5_key picoseconds picoseconds_in scaled wait_sockets check_run_root
    require_files check_memory number_setting number_of setting terminated rolled_back undoing spawn
    then_run environ_or host_name arch device_binary adapter_binary resolve_gem5 profile_values
    min_latency min_latency_from first_rate quantum_of memory_of initrd_of public_jettys update
    set_number set_text tune latency_key rate_key add_links drop_links nth_port
    select_compatible_checkpoint is_value compatible starts_with ends_with lookup insert erase str
    str_ℤ times_ℤ int_of hex2 replace_dash drop_text ◌+ℤ◌ ◌-ℤ◌ ◌>>=◌ ◌and_then◌
started h = start_gem5 h spec two_heads untouched

abbrev up : World
up = (start_gem5 host spec two_heads untouched).1

two_started : start_gem5 host spec two_heads untouched ≡ (ok "/lab/run-dual", up)
unfolding started
two_started = refl

some_launched : up.events ≢ []
unfolding started
some_launched h = cc

abbrev down : World
down = (start_gem5 full_host spec two_heads untouched).1

two_failed :
    start_gem5 full_host spec two_heads untouched
    ≡ (err (not_spawned "/lab/run-dual/ub-switch/gem5.pid"), down)
unfolding started
two_failed = refl

start_gem5-IsUp_example : IsUp (gem5_files "/lab/run-dual" (range_from 0 2)) up
start_gem5-IsUp_example = start_gem5-IsUp host spec two_heads "/lab/run-dual" up two_started

start_gem5-IsUndone_example : IsUndone full_host.spawning down
start_gem5-IsUndone_example =
    start_gem5-IsUndone full_host spec two_heads (not_spawned "/lab/run-dual/ub-switch/gem5.pid")
      down two_failed

start_gem5-IsReady_example : IsReady host spec two_heads
start_gem5-IsReady_example =
    start_gem5-IsReady host spec two_heads (start_gem5 host spec two_heads untouched) refl
      some_launched

abbrev manifest : Values
manifest =
    ("initrd_path", "/lab/initrd")
    ∷ ("peer_latency_ns", "300")
    ∷ ("auto_o3_lifecycle", "1")
    ∷ ("fast_boot_noncaching", "1")
    ∷ profile_settings

command_of : Result LaunchError (List String) → List String
command_of (ok command) = command
command_of (err e) = []

abbrev command : List String
command = command_of (gem5_command host manifest 0 "/lab/run-dual" none false)

command_made : gem5_command host manifest 0 "/lab/run-dual" none false ≡ ok command
unfolding started command_of
command_made = refl

gem5_command-IsPassed_example : All (IsPassed manifest command) option_settings
gem5_command-IsPassed_example =
    gem5_command-IsPassed host manifest 0 "/lab/run-dual" none false command command_made
