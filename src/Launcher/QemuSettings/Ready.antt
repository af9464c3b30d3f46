-- ===== src/Launcher/QemuSettings/Ready.antt =====
-- ubsim_lab/config_launcher.py: what `start_qemu` has checked before its first process.
use openurma_gem5_lab.Prelude.{
  ℕ, max, ltb, inl, inr, Bool-cases, ◌⊎◌, contains, map, ◌||◌, nat_eq, ◌≤◌, ◌≡◌, refl, ap, ◌<>◌,
  List, [], ◌∷◌, true, false, All, length, ◌==◌, string_eq, arith,
}
use openurma_gem5_lab.Prelude.Text.{str}
use openurma_gem5_lab.Prelude.Result.{
  Result, ok, err, Ensures, Ensures-bind, Ensures-ok, Ensures-err, Ensures-raise_if,
}
use openurma_gem5_lab.Config.{Spec}
use openurma_gem5_lab.Platform.{environ_or, adapter_binary}
use openurma_gem5_lab.Topology.Nodes.{QemuNode}
use openurma_gem5_lab.Topology.Plan.{Plan, MachinePlan, gem5_machine, qemu_machine}
use openurma_gem5_lab.QemuPorts.{Ports, PortError, qemu_ports}
use openurma_gem5_lab.Launcher.Process.{LaunchError, bad_ports}
use openurma_gem5_lab.Launcher.Settings.{Host, check_memory_lem, require_files_lem}
use openurma_gem5_lab.Launcher.QemuSettings.{prepare_qemu, qemu_device_of}
use openurma_gem5_lab.Launcher.QemuParts.{
  first_machine, QemuRun, ports_for, qemu_machines, most_memory, qemu_binary, qemu_kernel,
  qemu_initrd, qemu_fabric,
}
use openurma_gem5_lab.Launcher.QemuParts.{first_machine}
use openurma_gem5_lab.Prelude.{map, ◌⊎◌}
use openurma_gem5_lab.Launcher.QemuSettings.{environ_or}
use openurma_gem5_lab.Prelude.{contains}
use openurma_gem5_lab.Prelude.{inl}
use openurma_gem5_lab.Launcher.QemuSettings.{adapter_binary}
use openurma_gem5_lab.Prelude.{◌||◌}

-- The run is as prepared: the directory is free, its ports are those of `qemu_ports`, the memory guard
-- accepts as much memory as the largest node has, and the files are there; the run counts instructions
-- if it is synchronized or was told to.
pub record IsReady (host : Host) (spec : Spec) (plan : Plan) (run : QemuRun) : Type 0 where
  pub prepared : prepare_qemu host spec plan ≡ ok run
  pub directory :
      run.run_root
      ≡ environ_or host.platform "UBSIM_QEMU_DUAL_OUT" (host.platform.root <> "run-qemu-dual")
  pub free : host.is_running run.run_root ≡ false
  pub assigned : qemu_ports host.bases (length plan.node_ids) ≡ ok run.ports
  pub machines : plan.machines ≡ map qemu_machine run.machines
  pub most : ℕ
  pub largest : All (λ machine. machine.memory_mib ≤ most) run.machines
  pub attained : contains (map (λ machine. machine.memory_mib) run.machines) most ≡ true
  pub memory : host.memory_guard "qemu-start" (length plan.node_ids) (str most <> "MiB") ≡ 0
  pub files :
      All
        (λ path. host.is_file path ≡ true)
        (environ_or host.platform "UBSIM_QEMU"
            (host.platform.root <> "sources/qemu-11.1.1/build/qemu-system-aarch64")
          ∷ environ_or host.platform "UBSIM_QEMU_KERNEL"
              (host.platform.root <> "artifacts/kernel-64k-20261015/Image")
          ∷ environ_or host.platform "UBSIM_INITRD"
              (host.platform.root <> "out/official-udma-64k-20261015.cpio.gz")
          ∷ qemu_device_of host
          ∷ environ_or host.platform "UBSIM_NS3UB_ADAPTER" (adapter_binary host.platform)
          ∷ [])
  pub counted : run.icount ≡ (
      spec.sync == "required"
      || environ_or host.platform "UBSIM_QEMU_ICOUNT_WITH_SYNC_OFF" "0" == "1")

most_memory_start : (most : ℕ) (machines : List QemuNode) → most ≤ most_memory most machines
unfolding most_memory
most_memory_start most [] = omega arith
most_memory_start most (machine ∷ rest) =
    omega (arith, most_memory_start (max most machine.memory_mib) rest)

most_memory-le :
    (most : ℕ) (machines : List QemuNode)
    → All (λ machine. machine.memory_mib ≤ most_memory most machines) machines
unfolding most_memory
most_memory-le most [] = tt
most_memory-le most (machine ∷ rest) = (
  omega (arith, most_memory_start (max most machine.memory_mib) rest),
  most_memory-le (max most machine.memory_mib) rest,
)

-- The greatest is what was given or the memory of one of the machines.
most_memory-attained :
    (most : ℕ) (machines : List QemuNode)
    → (most_memory most machines ≡ most)
      ⊎ (contains (map (λ machine. machine.memory_mib) machines) (most_memory most machines) ≡ true)
unfolding most_memory
most_memory-attained most [] = inl refl
most_memory-attained most (machine ∷ rest) =
    elim (most_memory-attained (max most machine.memory_mib) rest) [
      | inr there ↦ inr (ground (arith, there))
      | inl same ↦ elim (Bool-cases (ltb most machine.memory_mib)) [
        | inl greater ↦ inr (ground (arith, same))
        | inr fine ↦ inl (ground (arith, same))
      ]
    ]

most_memory_some :
    (machines : List QemuNode) (first : QemuNode)
    → first_machine machines ≡ ok first
    → contains (map (λ machine. machine.memory_mib) machines) (most_memory 0 machines) ≡ true
unfolding first_machine most_memory
most_memory_some [] first h = absurd (cc)
most_memory_some (machine ∷ rest) first h =
    elim (most_memory-attained (max 0 machine.memory_mib) rest) [
      | inr there ↦ ground (arith, there)
      | inl same ↦ ground (arith, same)
    ]

qemu_machines-map :
    (plans : List MachinePlan)
    → Ensures (λ machines. plans ≡ map qemu_machine machines) (qemu_machines plans)
unfolding qemu_machines
qemu_machines-map [] = Ensures-ok _ refl
qemu_machines-map (gem5_machine profile ∷ rest) = Ensures-err _
qemu_machines-map (qemu_machine machine ∷ rest) = Ensures-bind _ _ λ others read.
    Ensures-ok _
      (ap (λ plans. qemu_machine machine ∷ plans) ((qemu_machines-map rest).holds others read))

ports_for_lem :
    (host : Host) (count : ℕ) (ports : Ports)
    → ports_for host count ≡ ok ports
    → qemu_ports host.bases count ≡ ok ports
unfolding ports_for
ports_for_lem host count ports h = read (qemu_ports host.bases count) h
  where
    read :
        (r : Result PortError Ports)
        → ◌≡◌ {A = Result LaunchError Ports}
            (elim r [ err e ↦ err (bad_ports e) | ok p ↦ ok p ])
            (ok ports)
        → r ≡ ok ports
    read (ok p) e = cc
    read (err f) e = cc

-- What the run of a successful preparation is.
record IsPrepared (host : Host) (spec : Spec) (plan : Plan) (run : QemuRun) : Type 0 where
  ready : prepare_qemu host spec plan ≡ ok run → IsReady host spec plan run

prepare_qemu-IsPrepared :
    (host : Host) (spec : Spec) (plan : Plan)
    → Ensures (IsPrepared host spec plan) (prepare_qemu host spec plan)
unfolding prepare_qemu qemu_binary qemu_kernel qemu_initrd qemu_fabric
prepare_qemu-IsPrepared host spec plan = Ensures-bind _ _ λ ports assigned.
    Ensures-raise_if _ _ _ λ free. Ensures-bind _ _ λ machines read.
      Ensures-bind _ _ λ first started. Ensures-bind _ _ λ u memory. Ensures-bind _ _ λ v files.
        Ensures-bind _ _ λ _ _. Ensures-bind _ _ λ uart0 _. Ensures-bind _ _ λ uart1 _.
          Ensures-bind _ _ λ oob_port _. Ensures-raise_if _ _ _ λ _. Ensures-bind _ _ λ latency _.
            Ensures-bind _ _ λ rate _. Ensures-bind _ _ λ ssh0 _. Ensures-bind _ _ λ ssh1 _.
              Ensures-bind _ _ λ values _. Ensures-ok _ (record {
                ready = λ prepared. record {
                  prepared = prepared;
                  directory = refl;
                  free = free;
                  assigned = ports_for_lem host _ ports assigned;
                  machines = (qemu_machines-map plan.machines).holds machines read;
                  most = most_memory 0 machines;
                  largest = most_memory-le 0 machines;
                  attained = most_memory_some machines first started;
                  memory = check_memory_lem host _ _ _ u memory;
                  files = require_files_lem host _ v files;
                  counted = refl;
                };
              })

pub prepare_qemu-IsReady :
    (host : Host) (spec : Spec) (plan : Plan)
    → Ensures (IsReady host spec plan) (prepare_qemu host spec plan)
prepare_qemu-IsReady host spec plan = record {
  holds = λ run h. ((prepare_qemu-IsPrepared host spec plan).holds run h).ready h;
}
