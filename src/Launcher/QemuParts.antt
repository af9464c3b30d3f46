-- ===== src/Launcher/QemuParts.antt =====
-- ubsim_lab/config_launcher.py: the machines, ports and knobs of `start_qemu`.
use openurma_gem5_lab.Prelude.{
  ℕ, max, String, ◌<>◌, Bool, List, [], ◌∷◌, some, none, get_elem?, ◌==◌, string_eq, nat_eq,
  if◌then◌else◌,
}
use openurma_gem5_lab.Prelude.Int.{ℤ}
use openurma_gem5_lab.Prelude.Result.{Result, ok, err, ◌>>=◌}
use openurma_gem5_lab.Config.{Values, ConfigError}
use openurma_gem5_lab.Topology.Nodes.{QemuNode}
use openurma_gem5_lab.Topology.Plan.{MachinePlan, gem5_machine, qemu_machine}
use openurma_gem5_lab.QemuPorts.{Ports, qemu_ports}
use openurma_gem5_lab.Platform.{Platform, environ_or, adapter_binary}
use openurma_gem5_lab.Launcher.Process.{LaunchError, bad_ports, bad_config, missing_key, no_machine}
use openurma_gem5_lab.Launcher.Settings.{Host}

-- The variables that the function has set before its `try`.
pub record QemuRun : Type 0 where
  pub run_root : String
  pub ports : Ports
  pub machines : List QemuNode
  pub sync : String
  pub icount : Bool
  pub poll_ns : String
  pub link_latency : ℕ
  pub rate : ℕ
  pub oob_port : ℤ
  pub knobs : Values
  pub values : Values

-- `qemu_ports(count)`, with its `ValueError`
unfoldable pub ports_for : Host → ℕ → Result LaunchError Ports
ports_for host count = elim (qemu_ports host.bases count) [
  | err e ↦ err (bad_ports e)
  | ok ports ↦ ok ports
]

-- `machine["memory_mib"]` and the other keys of a QEMU node
unfoldable pub qemu_machines : List MachinePlan → Result LaunchError (List QemuNode)
qemu_machines [] = ok []
qemu_machines (gem5_machine profile ∷ rest) = err (missing_key "memory_mib")
qemu_machines (qemu_machine machine ∷ rest) = do others ← qemu_machines rest; ok (machine ∷ others)

unfoldable pub most_memory : ℕ → List QemuNode → ℕ
most_memory most [] = most
most_memory most (machine ∷ rest) = most_memory (max most machine.memory_mib) rest

-- `machines[0]`
unfoldable pub first_machine : List QemuNode → Result LaunchError QemuNode
first_machine [] = err no_machine
first_machine (machine ∷ rest) = ok machine

-- `ports[index]`
unfoldable pub port_at : List ℤ → ℕ → Result LaunchError ℤ
port_at ports index = elim (get_elem? ports index) [
  | none ↦ err (missing_key "ports")
  | some port ↦ ok port
]

unfoldable pub of_config : {A : Type 0} → Result ConfigError A → Result LaunchError A
of_config (ok a) = ok a
of_config (err e) = err (bad_config e)

module _ (platform : Platform) where
  unfoldable pub qemu_binary : String
  qemu_binary =
      environ_or platform "UBSIM_QEMU"
        (platform.root <> "sources/qemu-11.1.1/build/qemu-system-aarch64")

  unfoldable pub qemu_kernel : String
  qemu_kernel =
      environ_or platform "UBSIM_QEMU_KERNEL"
        (platform.root <> "artifacts/kernel-64k-20261015/Image")

  unfoldable pub qemu_initrd : String
  qemu_initrd =
      environ_or platform "UBSIM_INITRD" (platform.root <> "out/official-udma-64k-20261015.cpio.gz")

  unfoldable pub qemu_fabric : String
  qemu_fabric = environ_or platform "UBSIM_NS3UB_ADAPTER" (adapter_binary platform)

  -- `knobs`, in which `auto` retransmission is off.
  unfoldable pub retransmission : String → String
  retransmission mode = if mode == "auto" then "off" else mode

  unfoldable pub knob_values : Values
  unfolding retransmission
  knob_values =
      ("sq_prefetch_wqebbs", environ_or platform "UBSIM_SQ_PREFETCH_WQEBBS" "64")
      ∷ ("sq_fetch_burst_wqebbs", environ_or platform "UBSIM_SQ_FETCH_BURST_WQEBBS" "16")
      ∷ ("sq_fetch_max_outstanding", environ_or platform "UBSIM_SQ_FETCH_MAX_OUTSTANDING" "4")
      ∷ ("completion_event_slots", environ_or platform "UBSIM_COMPLETION_EVENT_SLOTS" "64")
      ∷ ("max_jfs_depth", environ_or platform "UBSIM_UDMA_MAX_JFS_DEPTH" "8192")
      ∷ ("max_jfr_depth", environ_or platform "UBSIM_UDMA_MAX_JFR_DEPTH" "8192")
      ∷ ("max_jfc_depth", environ_or platform "UBSIM_UDMA_MAX_JFC_DEPTH" "524288")
      ∷ ("dma_max_outstanding", environ_or platform "UBSIM_QEMU_DMA_MAX_OUTSTANDING" "256")
      ∷ ("iotlb_entries", environ_or platform "UBSIM_QEMU_IOTLB_ENTRIES" "4096")
      ∷ ("icount_shift", environ_or platform "UBSIM_QEMU_ICOUNT_SHIFT" "0")
      ∷ (
        "ctp_retransmission",
        retransmission (environ_or platform "UBSIM_CTP_RETRANSMISSION" "off"),
      )
      ∷ ("ctp_rto_ps", environ_or platform "UBSIM_CTP_RTO_PS" "25600000")
      ∷ ("ctp_max_retransmissions", environ_or platform "UBSIM_CTP_MAX_RETRANSMISSIONS" "7")
      ∷ []
