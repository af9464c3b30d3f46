-- ===== src/Launcher/Devices.antt =====
-- ubsim_lab/config_launcher.py: the arguments of the device, the fabric and the nodes of `start_gem5`.
use openurma_gem5_lab.Prelude.{
  ℕ, suc, ◌+◌, ◌*◌, String, ◌<>◌, Bool, false, List, [], ◌∷◌, ◌++◌, Option, some, none, get_elem?,
  ◌==◌, string_eq, if◌then◌else◌,
}
use openurma_gem5_lab.Prelude.Int.{pos, int_eq}
use openurma_gem5_lab.Prelude.Text.{str, str_ℤ, times_ℤ}
use openurma_gem5_lab.Prelude.Result.{Result, ok, err, ◌>>=◌}
use openurma_gem5_lab.Config.{Values}
use openurma_gem5_lab.Topology.Links.{NodeLink}
use openurma_gem5_lab.Topology.Plan.{Plan}
use openurma_gem5_lab.Platform.{Platform, environ_or, device_binary, adapter_binary}
use openurma_gem5_lab.Launcher.Process.{LaunchError, missing_key}
use openurma_gem5_lab.Launcher.Settings.{Host, setting, number_setting, picoseconds}
use openurma_gem5_lab.Launcher.Command.{flag_if}

unfoldable pub device_of_gem5 : Platform → String
device_of_gem5 platform = environ_or platform "UBSIM_UDMA_DEVICE_BINARY" (device_binary platform)

unfoldable pub switch_of_gem5 : Platform → String
switch_of_gem5 platform = environ_or platform "UBSIM_UB_SWITCH_BINARY" (adapter_binary platform)

unfoldable pub host_socket : ℕ → String
host_socket node = "/tmp/ubsim-dual.node" <> str node <> ".ub-host.sock"

unfoldable pub net_socket : ℕ → String
net_socket node = "/tmp/ubsim-dual.node" <> str node <> ".ub-net.sock"

-- `plan["node_links"][node]`
unfoldable pub link_at : List NodeLink → ℕ → Result LaunchError NodeLink
link_at links node = elim (get_elem? links node) [
  | none ↦ err (missing_key "node_links")
  | some link ↦ ok link
]

-- The flags that take a setting as it stands.
abbrev pub device_flags : List (String × String)
device_flags =
    ("--max-jfs-depth", "max_jfs_depth")
    ∷ ("--max-jfr-depth", "max_jfr_depth")
    ∷ ("--max-jfc-depth", "max_jfc_depth")
    ∷ ("--max-jettys", "max_jettys")
    ∷ ("--public-jettys", "public_jettys")
    ∷ ("--sq-prefetch-wqebbs", "sq_prefetch_wqebbs")
    ∷ ("--sq-fetch-burst-wqebbs", "sq_fetch_burst_wqebbs")
    ∷ ("--sq-fetch-max-outstanding", "sq_fetch_max_outstanding")
    ∷ ("--completion-event-slots", "completion_event_slots")
    ∷ ("--write-payload-read-window", "write_payload_read_window")
    ∷ []

unfoldable pub flag_args : Values → List (String × String) → Result LaunchError (List String)
unfolding setting
flag_args manifest [] = ok []
flag_args manifest ((flag, key) ∷ rest) = do
  value ← setting manifest key
  others ← flag_args manifest rest
  ok (flag ∷ value ∷ others)

unfoldable pub state_in : Option String → Bool → ℕ → List String
state_in (some checkpoint) false node =
    "--state-in" ∷ (checkpoint <> "/udma-node" <> str node <> ".state") ∷ []
state_in _ _ node = []

-- `args` of a node's device
unfoldable pub device_args :
    Host
    → Values
    → Plan
    → Option String
    → Bool
    → String
    → String
    → ℕ
    → Result LaunchError (List String)
unfolding number_setting link_at flag_args state_in device_of_gem5 host_socket net_socket
device_args host manifest plan checkpoint template run_root sync node = do
  host_latency ← number_setting manifest "external_udma_host_latency_ns"
  link ← link_at plan.node_links node
  quantum ← number_setting manifest "sync_quantum_ns"
  ports ← setting manifest "ub_port_count"
  flags ← flag_args manifest device_flags
  profile ← setting manifest "profile"
  reads ← number_setting manifest "max_read_outstanding"
  reads_text ← setting manifest "max_read_outstanding"
  lifecycle ← setting manifest "lifecycle_sync"
  ok (
      device_of_gem5 host.platform
        ∷ "--host-socket"
        ∷ host_socket node
        ∷ "--net-socket"
        ∷ net_socket node
        ∷ "--shm"
        ∷ ("/tmp/ubsim-dual.node" <> str node <> ".udma.shm")
        ∷ "--sync"
        ∷ sync
        ∷ "--host-link-latency-ps"
        ∷ str_ℤ (times_ℤ 1000 host_latency)
        ∷ "--net-link-latency-ps"
        ∷ str (link.latency_ns * 1000)
        ∷ "--sync-interval-ps"
        ∷ str_ℤ (times_ℤ 1000 quantum)
        ∷ "--eid"
        ∷ str (256 + node)
        ∷ "--ports"
        ∷ ports
        ∷ flags
      ++ (if profile == "modern"
          then "--one-shot-jfc-notifications" ∷ "--pipelined-completion-dma" ∷ []
          else [])
      ++ (if reads == pos 0 then [] else "--max-read-outstanding" ∷ reads_text ∷ [])
      ++ flag_if "--lifecycle-sync" lifecycle
      ++ state_in checkpoint template node
      ++ "--state-out" ∷ (run_root <> "/udma-node" <> str node <> "/state.bin") ∷ [])

-- The `--endpoint` arguments, one for each link.
unfoldable pub endpoint_args : (ℕ → String) → ℕ → List NodeLink → List String
endpoint_args socket node [] = []
endpoint_args socket node (link ∷ rest) =
    "--endpoint"
    ∷ (socket node
        <> ","
        <> str (256 + node)
        <> ","
        <> str (link.latency_ns * 1000)
        <> ","
        <> str link.rate_gbps)
    ∷ endpoint_args socket (suc node) rest

-- `ns3_args`
unfoldable pub fabric_args : Host → Values → Plan → String → Result LaunchError (List String)
unfolding number_setting endpoint_args switch_of_gem5 net_socket
fabric_args host manifest plan sync = do
  ports ← setting manifest "ub_port_count"
  latency ← number_setting manifest "peer_latency_ns"
  delay_text ← setting manifest "peer_switch_delay"
  delay ← picoseconds delay_text
  rate ← setting manifest "peer_link_rate_gbps"
  quantum ← number_setting manifest "sync_quantum_ns"
  retransmission ← setting manifest "ctp_retransmission"
  timeout ← setting manifest "ctp_rto_ps"
  retransmissions ← setting manifest "ctp_max_retransmissions"
  lifecycle ← setting manifest "lifecycle_sync"
  ok (
      switch_of_gem5 host.platform
        ∷ "--ports"
        ∷ ports
        ∷ "--link-delay-ps"
        ∷ str_ℤ (times_ℤ 1000 latency)
        ∷ "--switch-delay-ps"
        ∷ str_ℤ delay
        ∷ "--rate-gbps"
        ∷ rate
        ∷ "--sync"
        ∷ sync
        ∷ "--sync-interval-ps"
        ∷ str_ℤ (times_ℤ 1000 quantum)
        ∷ "--ctp-retransmission"
        ∷ retransmission
        ∷ "--ctp-rto-ps"
        ∷ timeout
        ∷ "--ctp-max-retransmissions"
        ∷ retransmissions
        ∷ (if plan.fabric_layout == "direct" then "--direct-link" ∷ [] else [])
      ++ flag_if "--lifecycle-sync" lifecycle
      ++ endpoint_args net_socket 0 plan.node_links)

-- `env.update(...)` of a node
unfoldable pub node_environment :
    Host → Values → String → ℕ → Result LaunchError (List (String × String))
unfolding number_setting host_socket
node_environment host manifest sync node = do
  pipe ← setting manifest "pipe_data"
  trace ← setting manifest "packet_trace"
  lifecycle ← setting manifest "lifecycle_sync"
  poll ← setting manifest "external_udma_poll_interval"
  latency ← setting manifest "external_udma_host_latency_ns"
  quantum ← setting manifest "sync_quantum_ns"
  latency_ns ← number_setting manifest "external_udma_host_latency_ns"
  ok (
      ("M5_PATH", environ_or host.platform "UBSIM_M5_PATH" (host.platform.root <> "system"))
      ∷ ("UBSIM_PIPE_DATA", pipe)
      ∷ ("UBSIM_TRACE_PACKETS", trace)
      ∷ ("UBSIM_ADAPTER_LOCAL_SYNC", "1")
      ∷ ("UBSIM_LIFECYCLE_SYNC", lifecycle)
      ∷ ("OPENURMA_ADAPTER_LOCAL_SYNC", "1")
      ∷ ("OPENURMA_LIFECYCLE_SYNC", lifecycle)
      ∷ ("UBSIM_EXIT_AFTER_CHECKPOINT", "1")
      ∷ ("UBSIM_UDMA_HOST_SOCKET", host_socket node)
      ∷ ("UBSIM_UDMA_HOST_POLL_INTERVAL", poll)
      ∷ ("UBSIM_UDMA_HOST_SYNC", if sync == "required" then "1" else "0")
      ∷ ("UBSIM_UDMA_HOST_LIFECYCLE_SYNC", lifecycle)
      ∷ ("UBSIM_UDMA_HOST_LINK_LATENCY", latency <> "ns")
      ∷ ("UBSIM_UDMA_HOST_SYNC_INTERVAL", quantum <> "ns")
      ∷ ("UBSIM_UDMA_HOST_PIO_LATENCY", str_ℤ (times_ℤ 2 latency_ns) <> "ns")
      ∷ [])
