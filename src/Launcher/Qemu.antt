-- ===== src/Launcher/Qemu.antt =====
-- ubsim_lab/config_launcher.py: `start_qemu`. The files of the run's directory are not modelled.
pub mod Started
use openurma_gem5_lab.Prelude.{
  ℕ, suc, String, ◌<>◌, Bool, true, false, List, [], ◌∷◌, map, Option, some, none, length,
  range_from, ltb, if◌then◌else◌,
}
use openurma_gem5_lab.Prelude.Text.{str, str_ℤ}
use openurma_gem5_lab.Prelude.Result.{Result, ok, err}
use openurma_gem5_lab.Config.{Spec}
use openurma_gem5_lab.Topology.Nodes.{QemuNode}
use openurma_gem5_lab.Topology.Links.{NodeLink}
use openurma_gem5_lab.Topology.Plan.{Plan}
use openurma_gem5_lab.Launcher.Process.{Process, Launch, ◌>>=◌, ◌>>◌, calc, spawn, undoing}
use openurma_gem5_lab.Launcher.Settings.{Host, wait_sockets}
use openurma_gem5_lab.Launcher.Gem5.{node_file}
use openurma_gem5_lab.Launcher.QemuSettings.{prepare_qemu}
use openurma_gem5_lab.Launcher.QemuParts.{QemuRun}
use openurma_gem5_lab.Launcher.QemuDevices.{
  qemu_socket, qemu_device_args, qemu_fabric_args, qemu_args, qemu_environment,
}

module _ (host : Host) (plan : Plan) (run : QemuRun) where
  -- The loop over the links, from a node on.
  unfoldable pub start_qemu_devices : ℕ → List NodeLink → Launch (Unit {0})
  unfolding qemu_device_args node_file
  start_qemu_devices node [] = calc (ok tt)
  start_qemu_devices node (link ∷ rest) = do
    args ← calc (qemu_device_args host plan run node link)
    spawn host.spawning (record {
      pidfile = node_file run.run_root "udma-node" node "udma.pid";
      command = args;
      environment = none;
    })
    start_qemu_devices (suc node) rest

  -- The sockets that are waited for, two for each node.
  unfoldable pub qemu_sockets : List ℕ → List String
  unfolding qemu_socket
  qemu_sockets [] = []
  qemu_sockets (node ∷ rest) = qemu_socket "host" node ∷ qemu_socket "net" node ∷ qemu_sockets rest

  -- The loop over the machines, from a node on.
  unfoldable pub start_machines : ℕ → List QemuNode → Launch (Unit {0})
  unfolding qemu_args qemu_environment node_file
  start_machines node [] = calc (ok tt)
  start_machines node (machine ∷ rest) = do
    args ← calc (qemu_args host plan run node machine)
    spawn host.spawning (record {
      pidfile = node_file run.run_root "node" node "qemu.pid";
      command = args;
      environment = some (qemu_environment host run node);
    })
    start_machines (suc node) rest

  unfoldable pub qemu_relay : Process
  qemu_relay = record {
    pidfile = run.run_root <> "/oob-switch/relay.pid";
    command =
        host.python
        ∷ (host.platform.root <> "tools/ethernet_relay.py")
        ∷ map (λ port. "tcp:127.0.0.1:" <> str_ℤ port) run.ports.oob;
    environment = none;
  }

  -- The relay, which more than two hosts need.
  unfoldable pub start_relay : Bool → Launch (Unit {0})
  unfolding qemu_relay
  start_relay true = spawn host.spawning qemu_relay
  start_relay false = calc (ok tt)

  unfoldable pub qemu_guard : Process
  qemu_guard = record {
    pidfile = run.run_root <> "/memory-guard.pid";
    command =
        host.python
        ∷ (host.platform.root <> "tools/host_memory_guard.py")
        ∷ "monitor"
        ∷ "--run-root"
        ∷ run.run_root
        ∷ "--nodes"
        ∷ str (length plan.node_ids)
        ∷ "--pid-name"
        ∷ "qemu.pid"
        ∷ "--stop-script"
        ∷ (host.platform.root <> "scripts/run/stop-qemu-dual.sh")
        ∷ [];
    environment = none;
  }

  -- The body of the `try`.
  unfoldable pub launch_qemu : Launch (Unit {0})
  unfolding start_qemu_devices qemu_sockets wait_sockets qemu_fabric_args start_machines start_relay
      qemu_guard
  launch_qemu = do
    start_qemu_devices 0 plan.node_links
    calc (wait_sockets host (qemu_sockets (range_from 0 (length plan.node_ids))))
    args ← calc (qemu_fabric_args host plan run)
    spawn host.spawning (record {
      pidfile = run.run_root <> "/ub-fabric/ns3.pid";
      command = args;
      environment = none;
    })
    start_machines 0 run.machines
    start_relay (ltb 2 (length plan.node_ids))
    spawn host.spawning qemu_guard

-- The `try` and its handler, then the returned directory.
unfoldable pub guarded_qemu : Host → Plan → QemuRun → Launch String
unfolding launch_qemu undoing
guarded_qemu host plan run = do undoing (launch_qemu host plan run); calc (ok run.run_root)

-- `start_qemu`
unfoldable pub start_qemu : Host → Spec → Plan → Launch String
unfolding prepare_qemu guarded_qemu
start_qemu host spec plan = do run ← calc (prepare_qemu host spec plan); guarded_qemu host plan run
