-- ===== src/Launcher/Gem5/Started.antt =====
-- ubsim_lab/config_launcher.py: what `start_gem5` leaves running.
use openurma_gem5_lab.Prelude.{
  ◌≢◌, [], ℕ, ◌≡◌, String, ◌<>◌, List, ◌∷◌, ◌++◌, map, length, range_from,
}
use openurma_gem5_lab.Launcher.Prepare.Ready.{IsReady, prepare_gem5-IsReady}
use openurma_gem5_lab.Launcher.Process.Guarded.{
  launched_prepared, IsUp, IsUndone, guarded_IsUp, guarded_IsUndone, prepared_IsUp,
  prepared_IsUndone,
}
use openurma_gem5_lab.Prelude.Result.{ok, err}
use openurma_gem5_lab.Config.{Spec}
use openurma_gem5_lab.Topology.Plan.{Plan}
use openurma_gem5_lab.Launcher.Settings.{Host}
use openurma_gem5_lab.Launcher.Process.{LaunchError, World, untouched}
use openurma_gem5_lab.Launcher.Process.Kept.{
  Starts, Starts-calc, Starts-spawn, Starts-bind, Starts-refuse_if,
}
use openurma_gem5_lab.Launcher.Prepare.{Prepared, prepare_gem5}
use openurma_gem5_lab.Launcher.Gem5.{
  node_file, start_devices, start_nodes, guard_process, relay_process, launch_gem5, guarded_gem5,
  start_gem5, Result,
}

-- The files for the numbers of the processes, in the order of their start: the devices, the fabric,
-- the nodes, the memory guard and the relay.
unfoldable pub gem5_files : String → List ℕ → List String
gem5_files root nodes =
    map (λ node. node_file root "udma-node" node "udma.pid") nodes
    ++ ((root <> "/ub-switch/gem5.pid")
        ∷ (map (λ node. node_file root "node" node "gem5.pid") nodes
            ++ ((root <> "/memory-guard.pid") ∷ (root <> "/oob-switch/relay.pid") ∷ [])))

module _ (host : Host) (plan : Plan) (p : Prepared) where
  start_devices-Starts :
      (nodes : List ℕ)
      → Starts host.spawning
          (map (λ node. node_file p.run_root "udma-node" node "udma.pid") nodes)
          (start_devices host plan p nodes)
  unfolding start_devices
  start_devices-Starts [] = Starts-calc host.spawning (ok tt)
  start_devices-Starts (node ∷ rest) =
      Starts-bind host.spawning _ _ (Starts-calc host.spawning _) λ args.
        Starts-bind host.spawning _ _ (Starts-spawn host.spawning _) λ _. start_devices-Starts rest

  start_nodes-Starts :
      (nodes : List ℕ)
      → Starts host.spawning
          (map (λ node. node_file p.run_root "node" node "gem5.pid") nodes)
          (start_nodes host plan p nodes)
  unfolding start_nodes
  start_nodes-Starts [] = Starts-calc host.spawning (ok tt)
  start_nodes-Starts (node ∷ rest) =
      Starts-bind host.spawning _ _ (Starts-calc host.spawning _) λ env.
        Starts-bind host.spawning _ _ (Starts-calc host.spawning _) λ command.
          Starts-bind host.spawning _ _ (Starts-spawn host.spawning _) λ _. start_nodes-Starts rest

  launch_gem5-Starts :
      (nodes : List ℕ)
      → Starts host.spawning (gem5_files p.run_root nodes) (launch_gem5 host plan p nodes)
  unfolding launch_gem5 gem5_files guard_process relay_process
  launch_gem5-Starts nodes = Starts-bind host.spawning _ _ (start_devices-Starts nodes) λ _.
      Starts-bind host.spawning _ _ (Starts-calc host.spawning _) λ _.
        Starts-bind host.spawning _ _ (Starts-calc host.spawning _) λ args.
          Starts-bind host.spawning _ _ (Starts-spawn host.spawning _) λ _.
            Starts-bind host.spawning _ _ (start_nodes-Starts nodes) λ _.
              Starts-bind host.spawning _ _ (Starts-spawn host.spawning _) λ _.
                Starts-bind host.spawning _ _ (Starts-refuse_if host.spawning _ _)
                  λ _. Starts-spawn host.spawning _

-- If `start_gem5` returns, the processes that it started are, in this order, the device of each node,
-- the fabric, each node, the memory guard and the relay, and none of them was stopped.
pub start_gem5-IsUp :
    (host : Host) (spec : Spec) (plan : Plan) (root : String) (w : World)
    → start_gem5 host spec plan untouched ≡ (ok root, w)
    → IsUp (gem5_files root (range_from 0 (length plan.node_ids))) w
unfolding start_gem5 guarded_gem5
start_gem5-IsUp host spec plan root w h =
    prepared_IsUp host.spawning (prepare_gem5 host spec plan) _ root w
      (λ p _.
        guarded_IsUp host.spawning _
          (λ directory. gem5_files directory (range_from 0 (length plan.node_ids))) p.run_root root
          w (launch_gem5-Starts host plan p _))
      h

-- If `start_gem5` raises, then it has stopped all the processes that it had noted, the latest first;
-- of the started ones only the last one may be left running, if its number could not be recorded.
pub start_gem5-IsUndone :
    (host : Host) (spec : Spec) (plan : Plan) (e : LaunchError) (w : World)
    → start_gem5 host spec plan untouched ≡ (err e, w)
    → IsUndone host.spawning w
unfolding start_gem5 guarded_gem5
start_gem5-IsUndone host spec plan e w h =
    prepared_IsUndone host.spawning (prepare_gem5 host spec plan) _ e w
      (λ p _. guarded_IsUndone host.spawning _ p.run_root e w (launch_gem5-Starts host plan p _)) h

-- `start_gem5` starts a process only if no process of an earlier run lives in the directory, the memory
-- guard accepts the number of hosts with the memory that the resolved settings give each, and all the
-- files, the guest's image of those settings among them, are there.
pub start_gem5-IsReady :
    (host : Host) (spec : Spec) (plan : Plan) (o : Result LaunchError String × World)
    → start_gem5 host spec plan untouched ≡ o
    → o.1.events ≢ []
    → IsReady host spec plan
unfolding start_gem5
start_gem5-IsReady host spec plan o h launched =
    let (p, prepared) =
      launched_prepared (prepare_gem5 host spec plan) (guarded_gem5 host plan) o h launched in
    (prepare_gem5-IsReady host spec plan).holds p prepared
