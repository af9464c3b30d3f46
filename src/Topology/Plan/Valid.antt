-- ===== src/Topology/Plan/Valid.antt =====
-- ubsim_lab/topology.py: what a plan that `compile_topology` returns satisfies.
use openurma_gem5_lab.Prelude.{
  ◌≤◌, String, ◌≡◌, refl, true, ◌==◌, nat_eq, string_eq, Distinct, length, All, arith, ◌||◌,
}
use openurma_gem5_lab.Prelude.Result.{ok, Ensures, Ensures-bind, Ensures-ok}
use openurma_gem5_lab.Json.{Json}
use openurma_gem5_lab.Topology.Fields.{is_name}
use openurma_gem5_lab.Topology.Nodes.{Simulator, gem5, qemu, simulator_eq}
use openurma_gem5_lab.Topology.Nodes.Accepted.{read_nodes-IsListed, check_nodes-IsUniform}
use openurma_gem5_lab.Topology.Devices.{port_limit, DeviceState}
use openurma_gem5_lab.Topology.Devices.Paired.{read_devices-IsPaired}
use openurma_gem5_lab.Topology.Devices.Matched.{check_devices-IsMatched}
use openurma_gem5_lab.Topology.Plan.{Plan, compile_topology}
use openurma_gem5_lab.Topology.Machine.Named.{read_switch-HasName}
use openurma_gem5_lab.Topology.Links.Direct.{direct_links-IsSplit}
use openurma_gem5_lab.Topology.Plan.Total.{one_count}
use openurma_gem5_lab.Topology.Plan.Collected.{
  InRange, ids_of-Distinct, jetty_limit_bounds, layout_links-AreLinks, length-machines_of,
}
use openurma_gem5_lab.Topology.Plan.{layout_links}
use openurma_gem5_lab.Prelude.{ℕ}
use openurma_gem5_lab.Topology.Plan.{switch_id_of}
use openurma_gem5_lab.Prelude.{Option}
use openurma_gem5_lab.Topology.Plan.{layout_of}
use openurma_gem5_lab.Prelude.{none}
use openurma_gem5_lab.Topology.Plan.{switch_delay_of}
use openurma_gem5_lab.Prelude.{some}
use openurma_gem5_lab.Topology.Plan.{Switch}
use openurma_gem5_lab.Prelude.{List}
use openurma_gem5_lab.Topology.Devices.{DeviceState}
use openurma_gem5_lab.Topology.Plan.{NodeLink}
use openurma_gem5_lab.Topology.Plan.{keys}

-- Two nodes without a switch, or a switch with an id.
pub data IsLaidOut (nodes : ℕ) (switch_id : Option String) (fabric_layout : String) (delay : ℕ)
    : Type 0 where
  direct :
      nodes ≡ 2
      → switch_id ≡ none
      → fabric_layout ≡ "direct"
      → delay ≡ 0
      → IsLaidOut nodes switch_id fabric_layout delay
  switched :
      (id : String)
      → switch_id ≡ some id
      → is_name id ≡ true
      → fabric_layout ≡ "switch"
      → IsLaidOut nodes switch_id fabric_layout delay

-- What the launchers rely on.
pub record IsLaunchable (p : Plan) : Type 0 where
  pub at_least : 2 ≤ length p.node_ids
  pub at_most : length p.node_ids ≤ 8
  pub named : All (λ id. is_name id ≡ true) p.node_ids
  pub distinct_nodes : Distinct p.node_ids
  pub distinct_devices : Distinct p.device_ids
  pub device_each : length p.device_ids ≡ length p.node_ids
  pub machine_each : length p.machines ≡ length p.node_ids
  pub link_each : length p.node_links ≡ length p.node_ids
  pub links_in_range : All InRange p.node_links
  pub ports_low : 1 ≤ p.port_count
  pub ports_high : p.port_count ≤ port_limit p.simulator
  pub jettys_low : 2 ≤ p.max_jettys
  pub jettys_high : p.max_jettys ≤ 65535
  pub layout : IsLaidOut (length p.node_ids) p.switch_id p.fabric_layout p.switch_delay_ns
  pub cold_qemu : (p.simulator == gem5 || p.checkpoint == "none") ≡ true

cold :
    (simulator : Simulator) (checkpoint : String)
    → (simulator ≡ qemu → (checkpoint == "none") ≡ true)
    → (simulator == gem5 || checkpoint == "none") ≡ true
cold gem5 checkpoint h = refl
cold qemu checkpoint h = h refl

laid_out :
    (switch : Option Switch) (names : List String) (port_count : ℕ) (s : DeviceState)
    (raws : List Json) (links : List NodeLink)
    → ((one : Switch) → switch ≡ some one → is_name one.id ≡ true)
    → layout_links names port_count s switch raws ≡ ok links
    → IsLaidOut (length names) (switch_id_of switch) (layout_of switch) (switch_delay_of switch)
unfolding layout_links switch_id_of layout_of switch_delay_of
laid_out none names port_count s raws links named h =
    let split =
      (direct_links-IsSplit (length names) port_count raws (keys s.by_device)).holds links h in
    direct split.two refl refl refl
laid_out (some switch) names port_count s raws links named h =
    switched switch.id refl (named switch refl) refl

compile_topology_valid : (raw : Json) → Ensures IsLaunchable (compile_topology raw)
unfolding compile_topology
compile_topology_valid raw = Ensures-bind _ _ λ h _. Ensures-bind _ _ λ ns nodes_read.
    Ensures-bind _ _ λ simulator uniform. Ensures-bind _ _ λ machine _.
      Ensures-bind _ _ λ switch switched_on. Ensures-bind _ _ λ ds devices_read.
        Ensures-bind _ _ λ port_count checked. Ensures-bind _ _ λ links linked.
          Ensures-bind _ _ λ ids named.
            let (listed, count) = (read_nodes-IsListed h.nodes).holds ns nodes_read in
            let u = (check_nodes-IsUniform h ns).holds simulator uniform in
            let p =
              (read_devices-IsPaired simulator ns.node_names switch h.devices).holds ds
                devices_read in
            let m =
              (check_devices-IsMatched (length h.nodes) (length h.devices) ds).holds port_count
                checked in
            let (low, high) =
              one_count simulator ns.node_names switch ds port_count p m.same_count in
            let (each, ranges) =
              (layout_links-AreLinks ns.node_names switch p port_count h.links).holds links
                linked in
            let (id_each, distinct) =
              (ids_of-Distinct p ns.node_names listed.distinct).holds ids named in
            let (jettys_low, jettys_high) =
              jetty_limit_bounds ds.limits simulator ns.profiles p.limits in
            Ensures-ok _ (record {
              at_least = omega (arith, u.at_least);
              at_most = omega (arith, u.at_most);
              named = listed.named;
              distinct_nodes = listed.distinct;
              distinct_devices = distinct;
              device_each = id_each;
              machine_each = length-machines_of simulator ns machine listed u.only;
              link_each = each;
              links_in_range = ranges;
              ports_low = low;
              ports_high = high;
              jettys_low = jettys_low;
              jettys_high = jettys_high;
              layout =
                  laid_out switch ns.node_names port_count ds h.links links
                    ((read_switch-HasName h.switches).holds switch switched_on) linked;
              cold_qemu = cold simulator h.checkpoint u.cold_qemu;
            })

-- If `compile_topology` returns a plan for a JSON value, the plan has 2 to 8 nodes with distinct,
-- well-formed ids; for each of them one device (the device ids are distinct too), one machine and
-- one link whose rate is 1 to 100000 Gbit/s and whose delay is 1 ns to 1 s; at least one port per
-- device, and at most 16 (gem5) or 8 (QEMU); a Jetty limit of 2 to 65535; no checkpoint restore
-- unless the simulator is gem5; and either two nodes in the layout `direct`, without a switch and its
-- delay, or the layout `switch` with the id of a
-- switch, which is well-formed too.
pub compile_topology-IsLaunchable :
    (raw : Json) (p : Plan) → compile_topology raw ≡ ok p → IsLaunchable p
compile_topology-IsLaunchable raw p h = (compile_topology_valid raw).holds p h
