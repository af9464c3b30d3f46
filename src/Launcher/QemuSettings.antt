-- ===== src/Launcher/QemuSettings.antt =====
-- ubsim_lab/config_launcher.py: what `start_qemu` does before its first process.
pub mod Ready
use openurma_gem5_lab.Prelude.{
  HasTest, ℕ, suc, max, String, ◌<>◌, Bool, true, false, not, ◌||◌, List, [], ◌∷◌, some, none,
  length, all, ltb, get_elem?, ◌==◌, string_eq, nat_eq, if◌then◌else◌,
}
use openurma_gem5_lab.Prelude.Dict.{insert}
use openurma_gem5_lab.Prelude.Int.{ℤ}
use openurma_gem5_lab.Prelude.Text.{str, str_ℤ}
use openurma_gem5_lab.Prelude.Result.{Result, ok, err, ◌>>=◌, ◌>>◌, raise_if}
use openurma_gem5_lab.Config.{Values, Spec, ConfigError, min_latency, first_rate}
use openurma_gem5_lab.Topology.Nodes.{QemuNode}
use openurma_gem5_lab.Topology.Links.{NodeLink}
use openurma_gem5_lab.Topology.Plan.{Plan, MachinePlan, gem5_machine, qemu_machine}
use openurma_gem5_lab.QemuPorts.{Ports, qemu_ports}
use openurma_gem5_lab.Platform.{Platform, environ_or, device_binary, adapter_binary}
use openurma_gem5_lab.Launcher.Process.{
  LaunchError, bad_ports, bad_config, missing_key, no_machine, already_running, invalid_icount,
}
use openurma_gem5_lab.Launcher.Settings.{Host, check_memory, require_files, check_run_root}
use openurma_gem5_lab.Launcher.QemuParts.{
  QemuRun, ports_for, qemu_machines, most_memory, first_machine, port_at, of_config, qemu_binary,
  qemu_kernel, qemu_initrd, qemu_fabric, retransmission, knob_values,
}

-- `udma`, with its fallback
unfoldable pub qemu_device_of : Host → String
qemu_device_of host =
    let configured =
      environ_or host.platform "UBSIM_UDMA_DEVICE_BINARY" (device_binary host.platform) in
    let fallback = host.platform.root <> "artifacts/udma-device-sim-build/udma-device-sim" in
    if host.is_file configured
    then configured
    else if host.is_file fallback
    then fallback
    else configured

unfoldable pub mode_name : Bool → Bool → String
mode_name true icount = "timing"
mode_name false true = "icount-unsynchronized"
mode_name false false = "functional"

-- The entries of one node, in the loop over machines and links.
unfoldable pub node_values :
    Plan → QemuRun → ℕ → List QemuNode → List NodeLink → Values → Result LaunchError Values
unfolding port_at
node_values plan run node (machine ∷ machines) (link ∷ links) values = do
  uart ← port_at run.ports.uart node
  ssh ← port_at run.ports.ssh node
  oob ← if ltb 2 (length plan.node_ids) then port_at run.ports.oob node else ok run.oob_port
  let name : String = "node" <> str node
  node_values plan run (suc node) machines links (
      insert (name <> "_link_latency_ns") (str link.latency_ns) (
        insert (name <> "_link_rate_gbps") (str link.rate_gbps) (
          insert (name <> "_oob_port") (str_ℤ oob) (
            insert (name <> "_ssh_port") (str_ℤ ssh) (
              insert (name <> "_uart_port") (str_ℤ uart) (
                insert (name <> "_memory_mib") (str machine.memory_mib) (
                  insert (name <> "_cpu_count") (str machine.cores)
                    (insert (name <> "_cpu_type") machine.cpu values))))))))
node_values plan run node _ _ values = ok values

-- The first machine's value as a text, or that the machines differ.
unfoldable pub common_value :
    {A : Type 0} ⦃tested : HasTest A⦄
    → (A → String)
    → (QemuNode → A)
    → QemuNode
    → List QemuNode
    → String
common_value show field first machines =
    if all (λ machine. field machine == field first) machines then show (field first) else "mixed"

unfoldable pub common_values : Plan → QemuNode → List QemuNode → Values → Values
unfolding common_value
common_values plan first machines values =
    insert "oob_backend"
      (if ltb 2 (length plan.node_ids) then "learning-relay" else "direct-socket")
      (insert "memory_mib" (common_value str (λ m. m.memory_mib) first machines) (
        insert "cpu_count" (common_value str (λ m. m.cores) first machines)
          (insert "cpu_type" (common_value (λ cpu. cpu) (λ m. m.cpu) first machines) values)))

-- The entries that are no node's.
unfoldable pub run_values : Host → Plan → QemuRun → Bool → ℤ → ℤ → ℤ → ℤ → Values
unfolding mode_name qemu_device_of qemu_binary qemu_kernel qemu_initrd qemu_fabric
run_values host plan run timing uart0 uart1 ssh0 ssh1 =
    let platform = host.platform in
    ("runtime", "qemu-tcg-" <> mode_name timing run.icount)
    ∷ ("node_count", str (length plan.node_ids))
    ∷ ("network_backend", "modular-ns3ub")
    ∷ ("ub_fabric_layout", plan.fabric_layout)
    ∷ ("synchronization", run.sync)
    ∷ ("icount_enabled", if run.icount then "1" else "0")
    ∷ ("host_poll_ns", run.poll_ns)
    ∷ ("uart0", str_ℤ uart0)
    ∷ ("uart1", str_ℤ uart1)
    ∷ ("oob_port", str_ℤ run.oob_port)
    ∷ ("ssh0_port", str_ℤ ssh0)
    ∷ ("ssh1_port", str_ℤ ssh1)
    ∷ ("peer_link_rate_gbps", str run.rate)
    ∷ ("host_link_latency_ns", str_ℤ host.host_latency_ns)
    ∷ ("max_jettys", str plan.max_jettys)
    ∷ ("public_jettys", "1")
    ∷ ("udma_state_format", "3")
    ∷ ("qemu_binary", qemu_binary platform)
    ∷ ("udma_device_binary", qemu_device_of host)
    ∷ ("ns3_binary", qemu_fabric platform)
    ∷ ("kernel_image", qemu_kernel platform)
    ∷ ("initrd_image", qemu_initrd platform)
    ∷ ("port_count", str plan.port_count)
    ∷ ("peer_latency_ns", str run.link_latency)
    ∷ ("switch_delay_ns", str plan.switch_delay_ns)
    ∷ run.knobs

-- Everything before the first process.
unfoldable pub prepare_qemu : Host → Spec → Plan → Result LaunchError QemuRun
unfolding ports_for qemu_machines most_memory first_machine port_at of_config knob_values
    node_values common_values run_values
prepare_qemu host spec plan = do
  ports ← ports_for host (length plan.node_ids)
  let platform : Platform = host.platform
  let run_root : String =
      environ_or platform "UBSIM_QEMU_DUAL_OUT" (platform.root <> "run-qemu-dual")
  raise_if (host.is_running run_root) already_running
  machines ← qemu_machines plan.machines
  first ← first_machine machines
  check_memory host "qemu-start" (length plan.node_ids) (str (most_memory 0 machines) <> "MiB")
  require_files host (
      qemu_binary platform
      ∷ qemu_kernel platform
      ∷ qemu_initrd platform
      ∷ qemu_device_of host
      ∷ qemu_fabric platform
      ∷ [])
  check_run_root run_root
  uart0 ← port_at ports.uart 0
  uart1 ← port_at ports.uart 1
  oob_port ← port_at ports.oob 0
  let timing : Bool = spec.sync == "required"
  let forced : String = environ_or platform "UBSIM_QEMU_ICOUNT_WITH_SYNC_OFF" "0"
  raise_if (not (forced == "0" || forced == "1")) invalid_icount
  latency ← of_config (min_latency plan.node_links)
  rate ← of_config (first_rate plan.node_links)
  ssh0 ← port_at ports.ssh 0
  ssh1 ← port_at ports.ssh 1
  let run : QemuRun = record {
    run_root = run_root;
    ports = ports;
    machines = machines;
    sync = if timing then "required" else "off";
    icount = timing || forced == "1";
    poll_ns = if timing then "1000000" else "1000";
    link_latency = latency;
    rate = rate;
    oob_port = oob_port;
    knobs = knob_values platform;
    values = [];
  }
  values ←
      node_values plan run 0 machines plan.node_links
        (run_values host plan run timing uart0 uart1 ssh0 ssh1)
  ok (record {
    run_root = run.run_root;
    ports = run.ports;
    machines = run.machines;
    sync = run.sync;
    icount = run.icount;
    poll_ns = run.poll_ns;
    link_latency = run.link_latency;
    rate = run.rate;
    oob_port = run.oob_port;
    knobs = run.knobs;
    values = common_values plan first machines values;
  })
