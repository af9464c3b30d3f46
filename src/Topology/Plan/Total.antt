-- ===== src/Topology/Plan/Total.antt =====
-- ubsim_lab/topology.py: `compile_topology` raises no `KeyError`. Its last lookups, of the link
-- of each node's device, succeed because the accepted links fill every port.
use openurma_gem5_lab.Prelude.Result.{◌>>=◌, err}
use openurma_gem5_lab.Prelude.{
  ℕ, ◌*◌, ◌≤◌, String, ◌≡◌, true, List, [], ◌∷◌, ◌==◌, nat_eq, string_eq, eq_iff, contains, length,
  arith, Option, some, none, Bool-cases, inl, inr, sym, ◌∙◌, ◌≢◌,
}
use openurma_gem5_lab.Prelude.Dict.{
  lookup, has, keys, has-keys, lookup_of_has, has_of_lookup, length-keys,
}
use openurma_gem5_lab.Prelude.Pigeonhole.{contains_of_full}
use openurma_gem5_lab.Json.{Json}
use openurma_gem5_lab.Topology.Fields.NoKeyError.{
  NoKeyError, NoKeyError-ok, NoKeyError-bind, NoKeyError-topology_error,
}
use openurma_gem5_lab.Topology.Nodes.{Simulator, no_nodes}
use openurma_gem5_lab.Topology.Nodes.Total.{
  NoKeyError-read_header, NoKeyError-read_nodes, NoKeyError-check_nodes,
}
use openurma_gem5_lab.Topology.Nodes.Accepted.{read_nodes-IsListed}
use openurma_gem5_lab.Topology.Machine.{Switch}
use openurma_gem5_lab.Topology.Machine.Total.{NoKeyError-read_machine, NoKeyError-read_switch}
use openurma_gem5_lab.Topology.Devices.{Device, DeviceState, no_devices, port_limit}
use openurma_gem5_lab.Topology.Devices.Total.{NoKeyError-read_devices, NoKeyError-check_devices}
use openurma_gem5_lab.Topology.Devices.Paired.{IsPaired, read_devices-IsPaired}
use openurma_gem5_lab.Topology.Devices.Matched.{check_devices-IsMatched}
use openurma_gem5_lab.Topology.Links.{
  device_at, entry_at, link_of, collect_links, no_links, LinkState,
}
use openurma_gem5_lab.Topology.Links.Total.{NoKeyError-direct_links, NoKeyError-read_links}
use openurma_gem5_lab.Topology.Links.Linked.{IsLinked, read_links-IsLinked, node_linked}
use openurma_gem5_lab.Topology.Plan.{
  compile_topology, ids_of, layout_links, switch_links, ◌>>=◌, key_error,
}

-- Every node has a device.
abbrev pub Covers : List String → DeviceState → Type 0
Covers names s = (node : String) → contains names node ≡ true → has node s.by_node ≡ true

module _ {simulator : Simulator} {names : List String} {switch : Option Switch} {s : DeviceState}
    (p : IsPaired simulator names switch s) where
  pub paired-Covers : length s.by_node ≡ length names → Covers names s
  paired-Covers full node m = rw has-keys (
      contains_of_full names (keys s.by_node) p.distinct (λ k h. p.known k (rw has-keys h))
        (omega (arith, length-keys s.by_node)) node m)

  pub known_owner :
      (id : String) (d : Device) → lookup id s.by_device ≡ some d → contains names d.node ≡ true
  known_owner id d h = p.known d.node (has_of_lookup d.node s.by_node (p.owned id d h).1)

  NoKeyError-ids_of :
      (nodes : List String)
      → ((node : String) → contains nodes node ≡ true → has node s.by_node ≡ true)
      → NoKeyError (ids_of s.by_node nodes)
  unfolding ids_of device_at
  NoKeyError-ids_of [] covers = NoKeyError-ok _
  NoKeyError-ids_of (node ∷ rest) covers =
      let (d, found) =
        lookup_of_has node s.by_node (covers node (ground (arith, eq_iff node node))) in
      NoKeyError-bind _ _ (record { never = λ j h. ground arith })
        λ device _.
          NoKeyError-bind _ _ (NoKeyError-ids_of rest (λ k m. covers k (ground (arith, m))))
            λ ids _. NoKeyError-ok _

  module _ (one : Switch) (port_count : ℕ) (wide : 1 ≤ port_count) where
    module _ (t : LinkState) (v : IsLinked names port_count s.by_device one known_owner t)
        (full : length t.seen_switch_ports ≡ length names * port_count) where
      NoKeyError-link_of :
          (node : String)
          → contains names node ≡ true
          → NoKeyError (link_of s.by_node t.link_by_device node)
      unfolding link_of device_at entry_at ◌>>=◌
      NoKeyError-link_of node m =
          let (id, d, found, at_node, linked) =
            node_linked names port_count s.by_device one known_owner t v full wide node m in
          let (same, back) = p.owned id d found in
          let (entry, e) = lookup_of_has id t.link_by_device linked in
          let here : lookup node s.by_node ≡ some d = rw at_node at back in
          let there : lookup d.id t.link_by_device ≡ some entry = rw same e in
          record { never = λ j h. ground arith }

      NoKeyError-collect_links :
          (nodes : List String)
          → ((node : String) → contains nodes node ≡ true → contains names node ≡ true)
          → NoKeyError (collect_links s.by_node t.link_by_device nodes)
      unfolding collect_links
      NoKeyError-collect_links [] w = NoKeyError-ok _
      NoKeyError-collect_links (node ∷ rest) w =
          NoKeyError-bind _ _ (NoKeyError-link_of node (w node (ground (arith, eq_iff node node))))
            λ link _.
              NoKeyError-bind _ _ (NoKeyError-collect_links rest (λ k m. w k (ground (arith, m))))
                λ links _. NoKeyError-ok _

    NoKeyError-switch_links :
        (raws : List Json) → NoKeyError (switch_links names port_count s one raws)
    unfolding switch_links
    NoKeyError-switch_links raws = elim (Bool-cases (length raws == length names * port_count)) [
      | inr differ ↦ rw differ (NoKeyError-topology_error _)
      | inl same ↦ rw same (
          NoKeyError-bind _ _
            (NoKeyError-read_links names port_count s.by_device one 0 raws no_links)
            λ t read.
              let (linked, count) =
                (read_links-IsLinked names port_count s.by_device one known_owner raws).holds t
                  read in
              NoKeyError-collect_links t linked (ground (arith, count)) names (λ k m. m))
    ]

  NoKeyError-layout_links :
      (port_count : ℕ) (raws : List Json)
      → 1 ≤ port_count
      → NoKeyError (layout_links names port_count s switch raws)
  unfolding layout_links
  NoKeyError-layout_links port_count raws wide = go switch
    where
      go : (w : Option Switch) → NoKeyError (layout_links names port_count s w raws)
      go none = NoKeyError-direct_links (length names) port_count raws (keys s.by_device)
      go (some one) = NoKeyError-switch_links one port_count wide raws

pub one_count :
    (simulator : Simulator) (names : List String) (switch : Option Switch) (s : DeviceState)
    (count : ℕ)
    → IsPaired simulator names switch s
    → s.counts ≡ count ∷ []
    → (1 ≤ count) × (count ≤ port_limit simulator)
one_count simulator names switch s count p e = (rw e at p.counts).0

NoKeyError-compile_topology : (raw : Json) → NoKeyError (compile_topology raw)
unfolding compile_topology
NoKeyError-compile_topology raw = NoKeyError-bind _ _ (NoKeyError-read_header raw) λ h _.
    NoKeyError-bind _ _ (NoKeyError-read_nodes 0 h.nodes no_nodes) λ ns nodes_read.
      NoKeyError-bind _ _ (NoKeyError-check_nodes h ns) λ simulator _.
        NoKeyError-bind _ _ (NoKeyError-read_machine h.spec simulator) λ machine _.
          NoKeyError-bind _ _ (NoKeyError-read_switch h.switches) λ switch _.
            NoKeyError-bind _ _
              (NoKeyError-read_devices simulator ns.node_names switch 0 h.devices no_devices)
              λ ds devices_read.
                NoKeyError-bind _ _
                  (NoKeyError-check_devices (length h.nodes) (length h.devices) ds)
                  λ port_count checked.
                    let (listed, named) = (read_nodes-IsListed h.nodes).holds ns nodes_read in
                    let p =
                      (read_devices-IsPaired simulator ns.node_names switch h.devices).holds ds
                        devices_read in
                    let matched =
                      (check_devices-IsMatched (length h.nodes) (length h.devices) ds).holds
                        port_count checked in
                    let (low, _) =
                      one_count simulator ns.node_names switch ds port_count p matched.same_count in
                    NoKeyError-bind _ _ (NoKeyError-layout_links p port_count h.links low)
                      λ links _.
                        NoKeyError-bind _ _
                          (NoKeyError-ids_of p ns.node_names
                            (paired-Covers p (matched.paired ∙ sym named)))
                          λ ids _. NoKeyError-ok _

-- Whatever JSON value the topology file holds, `compile_topology` raises no `KeyError`: not at the
-- fields that it reads, and not at the lookups of each node's device and of that device's link,
-- which it makes without a check.
pub compile_topology-ne-key_error :
    (raw : Json) (key : String) → compile_topology raw ≢ err (key_error key)
compile_topology-ne-key_error raw key = (NoKeyError-compile_topology raw).never key
