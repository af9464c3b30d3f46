-- ===== src/Topology/Plan.antt =====
-- ubsim_lab/topology.py: `compile_topology`, the stages put together, and the plan.
pub mod Total
pub mod Collected
pub mod Valid
use openurma_gem5_lab.Prelude.{
  ℕ, ◌*◌, String, Bool, true, false, not, ◌||◌, List, [], ◌∷◌, ◌==◌, nat_eq, string_eq, contains,
  length, map, if◌then◌else◌, Option, some, none,
}
use openurma_gem5_lab.Prelude.Dict.{Dict, lookup, keys}
use openurma_gem5_lab.Prelude.Result.{ok, err, ◌>>=◌}
use openurma_gem5_lab.Json.{Json, str as text}
use openurma_gem5_lab.Topology.Fields.{topology_error, key_error, Checked}
use openurma_gem5_lab.Topology.Nodes.{
  Simulator, gem5, qemu, simulator_eq, NodeState, QemuNode, no_nodes, read_header, read_nodes,
  check_nodes,
}
use openurma_gem5_lab.Topology.Machine.{Switch, read_machine, read_switch}
use openurma_gem5_lab.Topology.Devices.{
  Device, DeviceState, no_devices, read_devices, check_devices,
}
use openurma_gem5_lab.Topology.Links.{
  device_at, NodeLink, no_links, direct_links, read_links, collect_links,
}

-- A machine of the plan: a gem5 profile with the topology's `machine` settings, or a QEMU node.
pub data MachinePlan : Type 0 where
  gem5_machine : Dict String Json → MachinePlan
  qemu_machine : QemuNode → MachinePlan

pub record Plan : Type 0 where
  pub title : String
  pub simulator : Simulator
  pub node_ids : List String
  pub device_ids : List String
  pub switch_id : Option String
  pub fabric_layout : String
  pub backend : String
  pub port_count : ℕ
  pub max_jettys : ℕ
  pub jetty_limit_explicit : Bool
  pub switch_delay_ns : ℕ
  pub sync : String
  pub checkpoint : String
  pub node_links : List NodeLink
  pub machines : List MachinePlan

-- The body of the `else` of `if direct`.
unfoldable pub switch_links :
    List String → ℕ → DeviceState → Switch → List Json → Checked (List NodeLink)
switch_links node_names port_count devices switch links =
    if not (length links == length node_names * port_count)
    then err (topology_error "every device port needs one dedicated switch link")
    else do
      s ← read_links node_names port_count devices.by_device switch 0 links no_links
      collect_links devices.by_node s.link_by_device node_names

unfoldable pub layout_links :
    List String → ℕ → DeviceState → Option Switch → List Json → Checked (List NodeLink)
layout_links node_names port_count devices none links =
    direct_links (length node_names) port_count links (keys devices.by_device)
layout_links node_names port_count devices (some switch) links =
    switch_links node_names port_count devices switch links

-- `[by_node[n]["id"] for n in node_names]`
unfoldable pub ids_of : Dict String Device → List String → Checked (List String)
ids_of by_node [] = ok []
ids_of by_node (node ∷ rest) = do
  device ← device_at by_node node
  ids ← ids_of by_node rest
  ok (device.id ∷ ids)

-- `next(iter(limits)) if limits else …`
unfoldable pub jetty_limit : List ℕ → Simulator → List String → ℕ
jetty_limit (limit ∷ _) simulator profiles = limit
jetty_limit [] simulator profiles =
    if simulator == qemu || contains profiles "modern" then 47 else 1152

is_nonempty : List ℕ → Bool
is_nonempty [] = false
is_nonempty (limit ∷ _) = true

unfoldable pub machines_of : Simulator → NodeState → Dict String Json → List MachinePlan
machines_of gem5 s machine =
    map (λ profile. gem5_machine (("profile", text profile) ∷ machine)) s.node_profiles
machines_of qemu s machine = map qemu_machine s.qemu_nodes

switch_id_of : Option Switch → Option String
switch_id_of none = none
switch_id_of (some switch) = some switch.id

switch_delay_of : Option Switch → ℕ
switch_delay_of none = 0
switch_delay_of (some switch) = switch.delay

layout_of : Option Switch → String
layout_of none = "direct"
layout_of (some switch) = "switch"

unfoldable pub compile_topology : Json → Checked Plan
unfolding is_nonempty switch_id_of switch_delay_of layout_of
compile_topology raw = do
  h ← read_header raw
  ns ← read_nodes 0 h.nodes no_nodes
  simulator ← check_nodes h ns
  machine ← read_machine h.spec simulator
  switch ← read_switch h.switches
  ds ← read_devices simulator ns.node_names switch 0 h.devices no_devices
  port_count ← check_devices (length h.nodes) (length h.devices) ds
  node_links ← layout_links ns.node_names port_count ds switch h.links
  device_ids ← ids_of ds.by_node ns.node_names
  ok (record {
    title = h.title;
    simulator = simulator;
    node_ids = ns.node_names;
    device_ids = device_ids;
    switch_id = switch_id_of switch;
    fabric_layout = layout_of switch;
    backend = "native-json";
    port_count = port_count;
    max_jettys = jetty_limit ds.limits simulator ns.profiles;
    jetty_limit_explicit = is_nonempty ds.limits;
    switch_delay_ns = switch_delay_of switch;
    sync = h.sync;
    checkpoint = h.checkpoint;
    node_links = node_links;
    machines = machines_of simulator ns machine;
  })
