-- ===== src/Launcher/Gem5.antt =====
-- ubsim_lab/config_launcher.py: `start_gem5`. The files of the run's directory are not modelled.
pub mod Started
use openurma_gem5_lab.Launcher.Prepare.{Prepared, prepare_gem5}
use openurma_gem5_lab.Launcher.Process.{
  Process, LaunchError, Launch, World, ◌>>=◌, ◌>>◌, calc, spawn, undoing, refuse_if, bad_config,
  template_profile, already_running, no_fabric,
}
use openurma_gem5_lab.Prelude.{
  ℕ, String, ◌<>◌, Bool, true, false, not, ◌&&◌, List, [], ◌∷◌, ◌++◌, Option, some, none, map,
  length, range_from, ◌==◌, string_eq, if◌then◌else◌,
}
use openurma_gem5_lab.Prelude.Dict.{insert}
use openurma_gem5_lab.Prelude.Text.{str}
use openurma_gem5_lab.Prelude.Result.{Result, ok, err}
use openurma_gem5_lab.Checkpoint.{select_compatible_checkpoint}
use openurma_gem5_lab.Config.{Values, Spec, resolve_gem5}
use openurma_gem5_lab.Topology.Plan.{Plan}
use openurma_gem5_lab.Platform.{Platform, environ_or}
use openurma_gem5_lab.Launcher.Settings.{
  Host, setting, check_memory, require_files, check_run_root, wait_sockets,
}
use openurma_gem5_lab.Launcher.Command.{
  gem5_command, gem5_binary, gem5_config, gem5_kernel, tap_socket,
}
use openurma_gem5_lab.Launcher.Devices.{
  device_of_gem5, switch_of_gem5, host_socket, net_socket, device_args, fabric_args,
  node_environment,
}

-- `f"{prefix}{node}/{name}"`, in the run's directory
unfoldable pub node_file : String → String → ℕ → String → String
node_file run_root prefix node name = run_root <> "/" <> prefix <> str node <> "/" <> name

module _ (host : Host) (plan : Plan) (p : Prepared) where
  -- The loop over the devices.
  unfoldable pub start_devices : List ℕ → Launch (Unit {0})
  unfolding device_args node_file
  start_devices [] = calc (ok tt)
  start_devices (node ∷ rest) = do
    args ← calc (device_args host p.manifest plan p.checkpoint p.template p.run_root p.sync node)
    spawn host.spawning (record {
      pidfile = node_file p.run_root "udma-node" node "udma.pid";
      command = args;
      environment = none;
    })
    start_devices rest

  -- The first of `sockets`, two for each node.
  unfoldable pub device_sockets : List ℕ → List String
  unfolding host_socket net_socket
  device_sockets [] = []
  device_sockets (node ∷ rest) = host_socket node ∷ net_socket node ∷ device_sockets rest

  -- The loop over the nodes.
  unfoldable pub start_nodes : List ℕ → Launch (Unit {0})
  unfolding node_environment gem5_command node_file
  start_nodes [] = calc (ok tt)
  start_nodes (node ∷ rest) = do
    env ← calc (node_environment host p.manifest p.sync node)
    command ← calc (gem5_command host p.manifest node p.run_root p.checkpoint p.template)
    spawn host.spawning (record {
      pidfile = node_file p.run_root "node" node "gem5.pid";
      command = command;
      environment = some env;
    })
    start_nodes rest

  unfoldable pub guard_process : Process
  guard_process = record {
    pidfile = p.run_root <> "/memory-guard.pid";
    command =
        host.python
        ∷ (host.platform.root <> "tools/host_memory_guard.py")
        ∷ "monitor"
        ∷ "--run-root"
        ∷ p.run_root
        ∷ "--nodes"
        ∷ str (length plan.node_ids)
        ∷ "--stop-script"
        ∷ (host.platform.root <> "scripts/run/stop-dual.sh")
        ∷ [];
    environment = none;
  }

  unfoldable pub relay_process : List ℕ → Process
  unfolding tap_socket
  relay_process nodes = record {
    pidfile = p.run_root <> "/oob-switch/relay.pid";
    command =
        host.python
        ∷ (host.platform.root <> "tools/ethernet_relay.py")
        ∷ map (λ node. "unix:" <> tap_socket host.platform node) nodes;
    environment = none;
  }

  -- The body of the `try`, for `range(count)`.
  unfoldable pub launch_gem5 : List ℕ → Launch (Unit {0})
  unfolding start_devices device_sockets wait_sockets fabric_args start_nodes guard_process
      relay_process
  launch_gem5 nodes = do
    start_devices nodes
    calc (wait_sockets host (device_sockets nodes))
    args ← calc (fabric_args host p.manifest plan p.sync)
    spawn host.spawning (record {
      pidfile = p.run_root <> "/ub-switch/gem5.pid";
      command = args;
      environment = none;
    })
    start_nodes nodes
    spawn host.spawning guard_process
    refuse_if (not host.fabric_connects) no_fabric
    spawn host.spawning (relay_process nodes)

-- The `try` and its handler, then the returned directory.
unfoldable pub guarded_gem5 : Host → Plan → Prepared → Launch String
unfolding launch_gem5 undoing
guarded_gem5 host plan p = do
  undoing (launch_gem5 host plan p (range_from 0 (length plan.node_ids)))
  calc (ok p.run_root)

-- `start_gem5`
unfoldable pub start_gem5 : Host → Spec → Plan → Launch String
unfolding prepare_gem5 guarded_gem5
start_gem5 host spec plan = do p ← calc (prepare_gem5 host spec plan); guarded_gem5 host plan p
