-- ===== src/Launcher/Qemu/Started.antt =====
-- ubsim_lab/config_launcher.py: what `start_qemu` leaves running.
use mathlib.Core.Path.{subst}
use openurma_gem5_lab.Prelude.{
  ◌≢◌, ℕ, suc, ltb, ◌≡◌, String, ◌<>◌, List, [], ◌∷◌, ◌++◌, Bool, true, false, map, length,
  range_from,
}
use openurma_gem5_lab.Launcher.QemuSettings.Ready.{IsReady, prepare_qemu-IsReady}
use openurma_gem5_lab.Launcher.Process.Guarded.{
  launched_prepared, IsUp, IsUndone, guarded_IsUp, guarded_IsUndone, prepared_IsUp,
  prepared_IsUndone,
}
use openurma_gem5_lab.Prelude.Result.{Result, ok, err}
use openurma_gem5_lab.Config.{Spec}
use openurma_gem5_lab.Topology.Nodes.{QemuNode}
use openurma_gem5_lab.Topology.Links.{NodeLink}
use openurma_gem5_lab.Topology.Plan.{Plan}
use openurma_gem5_lab.Launcher.Settings.{Host}
use openurma_gem5_lab.Launcher.Process.{LaunchError, World, untouched}
use openurma_gem5_lab.Launcher.Process.Kept.{Starts, Starts-calc, Starts-spawn, Starts-bind}
use openurma_gem5_lab.Launcher.Gem5.{node_file}
use openurma_gem5_lab.Launcher.QemuSettings.{prepare_qemu}
use openurma_gem5_lab.Launcher.QemuParts.{QemuRun}
use openurma_gem5_lab.Launcher.Qemu.{
  start_qemu_devices, start_machines, start_relay, qemu_relay, qemu_guard, launch_qemu,
  guarded_qemu, start_qemu,
}
use mathlib.Core.Path.{sym}
use mathlib.Core.Path.{ap}
use openurma_gem5_lab.Prelude.{◌∙◌}
use openurma_gem5_lab.Prelude.{length-map}
use openurma_gem5_lab.Topology.Plan.{qemu_machine}

unfoldable pub relay_file : String → Bool → List String
relay_file root true = (root <> "/oob-switch/relay.pid") ∷ []
relay_file root false = []

-- The files for the numbers of the processes, in the order of their start, for `links` devices,
-- `machines` nodes and a number of hosts: the devices, the fabric, the nodes, the relay that more than
-- two hosts need, and the memory guard.
unfoldable pub qemu_files : ℕ → ℕ → ℕ → String → List String
unfolding relay_file
qemu_files links machines hosts root =
    map (λ node. node_file root "udma-node" node "udma.pid") (range_from 0 links)
    ++ ((root <> "/ub-fabric/ns3.pid")
        ∷ (map (λ node. node_file root "node" node "qemu.pid") (range_from 0 machines)
            ++ (relay_file root (ltb 2 hosts) ++ ((root <> "/memory-guard.pid") ∷ []))))

module _ (host : Host) (plan : Plan) (run : QemuRun) where
  start_qemu_devices-Starts :
      (node : ℕ) (links : List NodeLink)
      → Starts host.spawning
          (map
            (λ n. node_file run.run_root "udma-node" n "udma.pid")
            (range_from node (length links)))
          (start_qemu_devices host plan run node links)
  unfolding start_qemu_devices
  start_qemu_devices-Starts node [] = Starts-calc host.spawning (ok tt)
  start_qemu_devices-Starts node (link ∷ rest) =
      Starts-bind host.spawning _ _ (Starts-calc host.spawning _) λ args.
        Starts-bind host.spawning _ _ (Starts-spawn host.spawning _)
          λ _. start_qemu_devices-Starts (suc node) rest

  start_machines-Starts :
      (node : ℕ) (machines : List QemuNode)
      → Starts host.spawning
          (map
            (λ n. node_file run.run_root "node" n "qemu.pid")
            (range_from node (length machines)))
          (start_machines host plan run node machines)
  unfolding start_machines
  start_machines-Starts node [] = Starts-calc host.spawning (ok tt)
  start_machines-Starts node (machine ∷ rest) =
      Starts-bind host.spawning _ _ (Starts-calc host.spawning _) λ args.
        Starts-bind host.spawning _ _ (Starts-spawn host.spawning _)
          λ _. start_machines-Starts (suc node) rest

  start_relay-Starts :
      (many : Bool)
      → Starts host.spawning (relay_file run.run_root many) (start_relay host plan run many)
  unfolding start_relay relay_file qemu_relay
  start_relay-Starts true = Starts-spawn host.spawning _
  start_relay-Starts false = Starts-calc host.spawning (ok tt)

  launch_qemu-Starts :
      Starts host.spawning
        (qemu_files
          (length plan.node_links)
          (length run.machines)
          (length plan.node_ids)
          run.run_root)
        (launch_qemu host plan run)
  unfolding launch_qemu qemu_files qemu_guard
  launch_qemu-Starts =
      Starts-bind host.spawning _ _ (start_qemu_devices-Starts 0 plan.node_links) λ _.
        Starts-bind host.spawning _ _ (Starts-calc host.spawning _) λ _.
          Starts-bind host.spawning _ _ (Starts-calc host.spawning _) λ args.
            Starts-bind host.spawning _ _ (Starts-spawn host.spawning _) λ _.
              Starts-bind host.spawning _ _ (start_machines-Starts 0 run.machines) λ _.
                Starts-bind host.spawning _ _ (start_relay-Starts (ltb 2 (length plan.node_ids)))
                  λ _. Starts-spawn host.spawning _

-- If `start_qemu` returns, the processes that it started are, in this order, the device of each link,
-- the fabric, each node, the relay if there are more than two hosts, and the memory guard, and none of
-- them was stopped.
pub start_qemu-IsUp :
    (host : Host) (spec : Spec) (plan : Plan) (root : String) (w : World)
    → start_qemu host spec plan untouched ≡ (ok root, w)
    → IsUp
        (qemu_files (length plan.node_links) (length plan.machines) (length plan.node_ids) root)
        w
unfolding start_qemu guarded_qemu
start_qemu-IsUp host spec plan root w h =
    prepared_IsUp host.spawning (prepare_qemu host spec plan) _ root w
      (λ run prepared up.
        subst
          (λ machines.
            IsUp (qemu_files (length plan.node_links) machines (length plan.node_ids) root) w)
          (sym (
            ap length ((prepare_qemu-IsReady host spec plan).holds run prepared).machines
            ∙ length-map qemu_machine run.machines))
          (guarded_IsUp host.spawning _
            (qemu_files (length plan.node_links) (length run.machines) (length plan.node_ids))
            run.run_root root w (launch_qemu-Starts host plan run) up))
      h

-- If `start_qemu` raises, then it has stopped all the processes that it had noted, the latest first;
-- of the started ones only the last one may be left running, if its number could not be recorded.
pub start_qemu-IsUndone :
    (host : Host) (spec : Spec) (plan : Plan) (e : LaunchError) (w : World)
    → start_qemu host spec plan untouched ≡ (err e, w)
    → IsUndone host.spawning w
unfolding start_qemu guarded_qemu
start_qemu-IsUndone host spec plan e w h =
    prepared_IsUndone host.spawning (prepare_qemu host spec plan) _ e w
      (λ run _.
        guarded_IsUndone host.spawning _ run.run_root e w (launch_qemu-Starts host plan run))
      h

-- `start_qemu` starts a process only if no process of an earlier run lives in the directory, the ports
-- are those that `qemu_ports` gives, the memory guard accepts the number of hosts with as much memory
-- as the largest one has, and all the files are there; and the prepared run counts instructions just if
-- it is synchronized or the environment asks for it.
pub start_qemu-IsReady :
    (host : Host) (spec : Spec) (plan : Plan) (o : Result LaunchError String × World)
    → start_qemu host spec plan untouched ≡ o
    → o.1.events ≢ []
    → (run : QemuRun) × IsReady host spec plan run
unfolding start_qemu
start_qemu-IsReady host spec plan o h launched =
    let (run, prepared) =
      launched_prepared (prepare_qemu host spec plan) (guarded_qemu host plan) o h launched in
    (run, (prepare_qemu-IsReady host spec plan).holds run prepared)
