-- ===== src/Launcher/QemuDevices.antt =====
-- ubsim_lab/config_launcher.py: the arguments of the processes of `start_qemu`.
use openurma_gem5_lab.Prelude.{
  ℕ, zero, suc, ◌+◌, ◌*◌, String, ◌<>◌, Bool, true, false, List, [], ◌∷◌, ◌++◌, length, ltb, ◌==◌,
  string_eq, if◌then◌else◌,
}
use openurma_gem5_lab.Prelude.Text.{str, str_ℤ, times_ℤ}
use openurma_gem5_lab.Prelude.Result.{Result, ok, ◌>>=◌}
use openurma_gem5_lab.Topology.Nodes.{QemuNode}
use openurma_gem5_lab.Topology.Links.{NodeLink}
use openurma_gem5_lab.Topology.Plan.{Plan}
use openurma_gem5_lab.Launcher.Process.{LaunchError}
use openurma_gem5_lab.Launcher.Settings.{Host, setting}
use openurma_gem5_lab.Launcher.Command.{mac_of}
use openurma_gem5_lab.Launcher.Devices.{flag_args, endpoint_args}
use openurma_gem5_lab.Launcher.QemuSettings.{qemu_device_of}
use openurma_gem5_lab.Launcher.QemuParts.{
  QemuRun, qemu_binary, qemu_kernel, qemu_initrd, qemu_fabric, port_at,
}

unfoldable pub qemu_socket : String → ℕ → String
qemu_socket kind node = "/tmp/ubsim-qemu-dual.node" <> str node <> "." <> kind <> ".sock"

-- The flags that take a knob as it stands.
abbrev pub knob_flags : List (String × String)
knob_flags =
    ("--sq-prefetch-wqebbs", "sq_prefetch_wqebbs")
    ∷ ("--sq-fetch-burst-wqebbs", "sq_fetch_burst_wqebbs")
    ∷ ("--sq-fetch-max-outstanding", "sq_fetch_max_outstanding")
    ∷ ("--completion-event-slots", "completion_event_slots")
    ∷ ("--max-jfs-depth", "max_jfs_depth")
    ∷ ("--max-jfr-depth", "max_jfr_depth")
    ∷ ("--max-jfc-depth", "max_jfc_depth")
    ∷ []

-- `args` of a node's device
unfoldable pub qemu_device_args :
    Host → Plan → QemuRun → ℕ → NodeLink → Result LaunchError (List String)
unfolding flag_args setting qemu_socket qemu_device_of
qemu_device_args host plan run node link = do
  outstanding ← setting run.knobs "dma_max_outstanding"
  flags ← flag_args run.knobs knob_flags
  entries ← setting run.knobs "iotlb_entries"
  ok (
      qemu_device_of host
        ∷ "--host-socket"
        ∷ qemu_socket "host" node
        ∷ "--net-socket"
        ∷ qemu_socket "net" node
        ∷ "--shm"
        ∷ ("/tmp/ubsim-qemu-dual.node" <> str node <> ".shm")
        ∷ "--sync"
        ∷ run.sync
        ∷ "--host-link-latency-ps"
        ∷ str_ℤ (times_ℤ 1000 host.host_latency_ns)
        ∷ "--net-link-latency-ps"
        ∷ str (link.latency_ns * 1000)
        ∷ "--host-sync-interval-ps"
        ∷ str_ℤ (times_ℤ 1000 host.host_latency_ns)
        ∷ "--net-sync-interval-ps"
        ∷ str (link.latency_ns * 1000)
        ∷ "--eid"
        ∷ str (256 + node)
        ∷ "--ports"
        ∷ str plan.port_count
        ∷ "--dma-max-outstanding"
        ∷ outstanding
        ∷ flags
      ++ "--max-jettys"
        ∷ str plan.max_jettys
        ∷ "--public-jettys"
        ∷ "1"
        ∷ "--iotlb-entries"
        ∷ entries
        ∷ "--state-out"
        ∷ (run.run_root <> "/udma-node" <> str node <> "/state.bin")
        ∷ [])

-- `ns3_args`
unfoldable pub qemu_fabric_args : Host → Plan → QemuRun → Result LaunchError (List String)
unfolding setting endpoint_args qemu_socket qemu_fabric
qemu_fabric_args host plan run = do
  retransmission ← setting run.knobs "ctp_retransmission"
  timeout ← setting run.knobs "ctp_rto_ps"
  retransmissions ← setting run.knobs "ctp_max_retransmissions"
  ok (
      qemu_fabric host.platform
        ∷ "--ports"
        ∷ str plan.port_count
        ∷ "--link-delay-ps"
        ∷ str (run.link_latency * 1000)
        ∷ "--switch-delay-ps"
        ∷ str (plan.switch_delay_ns * 1000)
        ∷ "--rate-gbps"
        ∷ str run.rate
        ∷ "--sync"
        ∷ run.sync
        ∷ "--sync-interval-ps"
        ∷ str (run.link_latency * 1000)
        ∷ "--ctp-retransmission"
        ∷ retransmission
        ∷ "--ctp-rto-ps"
        ∷ timeout
        ∷ "--ctp-max-retransmissions"
        ∷ retransmissions
        ∷ (if plan.fabric_layout == "direct" then "--direct-link" ∷ [] else [])
      ++ endpoint_args (qemu_socket "net") 0 plan.node_links)

-- The first `-netdev`: each node listens for the relay, or the second node calls the first.
unfoldable pub oob_netdev : Plan → QemuRun → ℕ → Result LaunchError String
unfolding port_at
oob_netdev plan run zero =
    if ltb 2 (length plan.node_ids)
    then (port_at run.ports.oob 0 >>= λ port. ok ("socket,id=oob,listen=127.0.0.1:" <> str_ℤ port))
    else ok ("socket,id=oob,listen=127.0.0.1:" <> str_ℤ run.oob_port)
oob_netdev plan run (suc node) =
    if ltb 2 (length plan.node_ids)
    then (port_at run.ports.oob (suc node) >>= λ port.
        ok ("socket,id=oob,listen=127.0.0.1:" <> str_ℤ port))
    else ok ("socket,id=oob,connect=127.0.0.1:" <> str_ℤ run.oob_port)

-- `-icount`, if it is on
unfoldable pub icount_args : Bool → QemuRun → Result LaunchError (List String)
unfolding setting
icount_args false run = ok []
icount_args true run = do
  shift ← setting run.knobs "icount_shift"
  ok ("-icount" ∷ ("shift=" <> shift <> ",sleep=off") ∷ [])

-- `qemu_args`
unfoldable pub qemu_args : Host → Plan → QemuRun → ℕ → QemuNode → Result LaunchError (List String)
unfolding oob_netdev icount_args port_at mac_of qemu_binary qemu_kernel qemu_initrd
qemu_args host plan run node machine = do
  icount ← icount_args run.icount run
  uart ← port_at run.ports.uart node
  oob ← oob_netdev plan run node
  ssh ← port_at run.ports.ssh node
  let out : String = run.run_root <> "/node" <> str node
  ok (
      qemu_binary host.platform
        ∷ "-machine"
        ∷ "virt,accel=tcg,gic-version=2,highmem=off"
        ∷ "-cpu"
        ∷ machine.cpu
        ∷ icount
      ++ "-smp"
        ∷ str machine.cores
        ∷ "-m"
        ∷ str machine.memory_mib
        ∷ "-kernel"
        ∷ qemu_kernel host.platform
        ∷ "-initrd"
        ∷ qemu_initrd host.platform
        ∷ "-append"
        ∷ ("console=ttyAMA0 rdinit=/init nokaslr loglevel=5 ubsim_node="
            <> str node
            <> " ubsim_provider=official ubsim_auto_net=1 ubsim_ssh=1")
        ∷ "-display"
        ∷ "none"
        ∷ "-monitor"
        ∷ "none"
        ∷ "-no-reboot"
        ∷ "-chardev"
        ∷ ("socket,id=uart0,host=127.0.0.1,port="
            <> str_ℤ uart
            <> ",server=on,wait=off,logfile="
            <> out
            <> "/system.terminal,logappend=on")
        ∷ "-serial"
        ∷ "chardev:uart0"
        ∷ "-device"
        ∷ ("e1000,netdev=oob,mac=" <> mac_of "00" node)
        ∷ "-netdev"
        ∷ oob
        ∷ "-device"
        ∷ ("e1000,netdev=ssh,mac=" <> mac_of "10" node)
        ∷ "-netdev"
        ∷ ("user,id=ssh,hostfwd=tcp:127.0.0.1:" <> str_ℤ ssh <> "-:22")
        ∷ [])

-- `env.update(...)` of a node
unfoldable pub qemu_environment : Host → QemuRun → ℕ → List (String × String)
unfolding qemu_socket
qemu_environment host run node =
    ("UBSIM_QEMU_UB_HOST_SOCKET", qemu_socket "host" node)
    ∷ ("UBSIM_QEMU_UB_HOST_SYNC", run.sync)
    ∷ ("UBSIM_QEMU_UB_HOST_POLL_NS", run.poll_ns)
    ∷ ("UBSIM_QEMU_UB_HOST_LATENCY_PS", str_ℤ (times_ℤ 1000 host.host_latency_ns))
    ∷ ("UBSIM_QEMU_UB_HOST_SYNC_INTERVAL_PS", str_ℤ (times_ℤ 1000 host.host_latency_ns))
    ∷ []
