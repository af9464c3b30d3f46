-- ===== src/Tests/Topology.antt =====
-- ubsim_lab/topology.py at small topologies.
use openurma_gem5_lab.Prelude.{
  ℕ, String, ◌≡◌, refl, ◌≢◌, false, [], ◌∷◌, some, string_eq, nat_eq, List, ◌≤◌, ◌<◌, ◌+◌, ◌*◌,
  contains, index_of, true, ap, sym, ◌∙◌, Bool-cases, inl, inr, ◌==◌, arith,
}
use openurma_gem5_lab.Prelude.Dict.{lookup, has, insert, Dict}
use openurma_gem5_lab.Prelude.Int.{pos}
use openurma_gem5_lab.Prelude.Text.{str as decimal}
use openurma_gem5_lab.Prelude.Result.{ok, err, ◌>>=◌}
use openurma_gem5_lab.Json.{Json, num, str, arr, obj, nil, cons, end, member, Members, members}
use openurma_gem5_lab.Topology.Fields.{
  Checked, key_error, type_error, minus, is_empty, fields, at, get_or, list, integer, is_name, name,
  choice,
}
use openurma_gem5_lab.Topology.Nodes.{
  gem5, read_header, read_node, read_nodes, only_simulator, check_nodes,
}
use openurma_gem5_lab.Topology.Machine.{read_machine, read_switch, Switch}
use openurma_gem5_lab.Topology.Devices.{
  read_device, read_devices, only_count, check_devices, Device,
}
use openurma_gem5_lab.Topology.Links.{
  NodeLink, known_device, device_of, device_at, entry_at, link_of, direct_links, read_link,
  read_links, collect_links, required_port, previous_of, set_default, LinkState, no_links,
}
use openurma_gem5_lab.Topology.Links.Direct.{direct_links-halves}
use openurma_gem5_lab.Topology.Links.Linked.{read_links-fills_switch}
use openurma_gem5_lab.Topology.Plan.{
  Plan, gem5_machine, compile_topology, layout_links, switch_links, ids_of, jetty_limit,
  machines_of,
}
use openurma_gem5_lab.Topology.Plan.Total.{compile_topology-ne-key_error}
use openurma_gem5_lab.Topology.Plan.Valid.{IsLaunchable, compile_topology-IsLaunchable}
use openurma_gem5_lab.Prelude.{get_elem?}

abbrev node : String → Json
node id =
    obj
      (member "id" (str id) (member "simulator" (str "gem5") (member "profile" (str "modern") end)))

abbrev device : String → String → ℕ → Json
device id at eid = obj (
    member "id" (str id) (
      member "node" (str at) (
        member "type" (str "udma")
          (member "eid" (num (pos eid)) (member "ports" (num (pos 1)) end)))))

abbrev link : Json → ℕ → Json
link owner port = obj (
    member "device" owner (
      member "device_port" (num (pos 0)) (
        member "switch" (str "leaf") (
          member "switch_port" (num (pos port))
            (member "rate_gbps" (num (pos 400)) (member "latency_ns" (num (pos 300)) end))))))

abbrev leaf : Json
leaf =
    obj (
      member "id" (str "leaf")
        (member "type" (str "ns3ub") (member "delay_ns" (num (pos 150)) end)))

abbrev execution : Json
execution = obj (member "sync" (str "required") (member "checkpoint" (str "auto") end))

-- Two gem5 heads at one switch; the device of the first link is a parameter.
abbrev pub heads : Json → Json
heads owner = obj (
    member "schema_version" (num (pos 1)) (
      member "name" (str "two") (
        member "nodes" (arr (cons (node "a") (cons (node "b") nil))) (
          member "devices" (arr (cons (device "ua" "a" 256) (cons (device "ub" "b" 257) nil))) (
            member "switches" (arr (cons leaf nil)) (
              member "links" (arr (cons (link owner 0) (cons (link (str "ub") 1) nil)))
                (member "execution" execution end)))))))

compiled : Json → Checked Plan
unfolding compile_topology read_header fields at name list choice integer get_or minus is_empty
    is_name read_nodes read_node check_nodes only_simulator read_machine read_switch read_devices
    read_device check_devices only_count layout_links switch_links direct_links read_links read_link
    collect_links link_of device_at entry_at device_of known_device required_port previous_of
    set_default ids_of jetty_limit machines_of lookup has insert decimal ◌>>=◌
compiled raw = compile_topology raw

abbrev wire : NodeLink
wire = record { rate_gbps = 400; latency_ns = 300 }

abbrev pub two_heads : Plan
two_heads = record {
  title = "two";
  simulator = gem5;
  node_ids = "a" ∷ "b" ∷ [];
  device_ids = "ua" ∷ "ub" ∷ [];
  switch_id = some "leaf";
  fabric_layout = "switch";
  backend = "native-json";
  port_count = 1;
  max_jettys = 47;
  jetty_limit_explicit = false;
  switch_delay_ns = 150;
  sync = "required";
  checkpoint = "auto";
  node_links = wire ∷ wire ∷ [];
  machines =
      gem5_machine (("profile", str "modern") ∷ [])
      ∷ gem5_machine (("profile", str "modern") ∷ [])
      ∷ [];
}

pub heads_compile : compile_topology (heads (str "ua")) ≡ ok two_heads
unfolding compiled
heads_compile = refl

-- A list where a device's name is expected leaves the function as a `TypeError`.
unhashable_device : compile_topology (heads (arr nil)) ≡ err type_error
unfolding compiled
unhashable_device = refl

compile_topology-IsLaunchable_example : IsLaunchable two_heads
compile_topology-IsLaunchable_example =
    compile_topology-IsLaunchable (heads (str "ua")) two_heads heads_compile

compile_topology-ne-key_error_example : compile_topology (heads (str "ua")) ≢ err (key_error "ua")
compile_topology-ne-key_error_example = compile_topology-ne-key_error (heads (str "ua")) "ua"

abbrev half : ℕ → NodeLink
half latency = record { rate_gbps = 400; latency_ns = latency }

abbrev direct_link : Json
direct_link = obj (
    member "device" (str "ua") (
      member "device_port" (num (pos 0)) (
        member "peer_device" (str "ub") (
          member "peer_port" (num (pos 0))
            (member "rate_gbps" (num (pos 400)) (member "latency_ns" (num (pos 301)) end))))))

direct_read : direct_links 2 1 (direct_link ∷ []) ("ua" ∷ "ub" ∷ []) ≡ ok (half 150 ∷ half 151 ∷ [])
unfolding direct_links fields at list integer minus is_empty lookup has insert ◌>>=◌
direct_read = refl

direct_links-halves_example :
    (◌≡◌ {A = ℕ} 2 2)
    × (◌≡◌ {A = ℕ} 1 1)
    × ((link : Members) × (a : NodeLink) × (b : NodeLink) × (direct_link ∷ [] ≡ obj link ∷ [])
        × (half 150 ∷ half 151 ∷ [] ≡ a ∷ b ∷ [])
        × (lookup "rate_gbps" (members link) ≡ some (num (pos a.rate_gbps)))
        × (b.rate_gbps ≡ a.rate_gbps)
        × (lookup "latency_ns" (members link) ≡ some (num (pos (a.latency_ns + b.latency_ns))))
        × (2 ≤ a.latency_ns + b.latency_ns)
        × (1 ≤ a.latency_ns)
        × (a.latency_ns ≤ b.latency_ns)
        × (b.latency_ns ≤ a.latency_ns + 1))
direct_links-halves_example =
    direct_links-halves 2 1 (direct_link ∷ []) ("ua" ∷ "ub" ∷ []) (half 150 ∷ half 151 ∷ [])
      direct_read

abbrev names : List String
names = "a" ∷ "b" ∷ []

abbrev leaf_switch : Switch
leaf_switch = record { id = "leaf"; delay = 150 }

abbrev by_id : Dict String Device
by_id = ("ua", record { id = "ua"; node = "a" }) ∷ ("ub", record { id = "ub"; node = "b" }) ∷ []

abbrev both : LinkState
both = record {
  seen_device_ports = ("ua", 0) ∷ ("ub", 0) ∷ [];
  seen_switch_ports = 0 ∷ 1 ∷ [];
  link_by_device = ("ua", (400, 300)) ∷ ("ub", (400, 300)) ∷ [];
}

abbrev two_links : List Json
two_links = link (str "ua") 0 ∷ link (str "ub") 1 ∷ []

both_read : read_links names 1 by_id leaf_switch 0 two_links no_links ≡ ok both
unfolding fields at list integer minus is_empty read_links read_link device_of known_device
    required_port previous_of set_default lookup has insert decimal ◌>>=◌
both_read = refl

known_device_of :
    (found d : Device)
    → contains names found.node ≡ true
    → some found ≡ some d
    → contains names d.node ≡ true
known_device_of found d h e =
    let same : found ≡ d = cc in ap (λ x. contains names x.node) (sym same) ∙ h

by_id_known : (id : String) (d : Device) → lookup id by_id ≡ some d → contains names d.node ≡ true
unfolding lookup
by_id_known id d h = elim (Bool-cases ("ua" == id)) [
  | inl first ↦ known_device_of (record { id = "ua"; node = "a" }) d refl (ground arith)
  | inr later ↦ known_device_of (record { id = "ub"; node = "b" }) d refl (ground arith)
]

read_links-fills_switch_example :
    (contains both.seen_switch_ports 1 ≡ true)
    × ((id : String) × (d : Device) × (q : ℕ) × (lookup id by_id ≡ some d)
        × (q < 1)
        × (◌≡◌ {A = ℕ} 1 (index_of d.node names * 1 + q))
        × ((place : ℕ) × (get_elem? both.seen_device_ports place ≡ some (id, q))
            × (get_elem? both.seen_switch_ports place ≡ some 1))
        × (has id both.link_by_device ≡ true))
read_links-fills_switch_example =
    read_links-fills_switch names 1 by_id leaf_switch by_id_known two_links both refl both_read 1
      (omega arith)
