-- ===== src/Topology/Nodes.antt =====
-- ubsim_lab/topology.py: the head of `compile_topology`, its loop over the nodes, and the checks
-- that follow the loop.
pub mod Total
pub mod Accepted
use openurma_gem5_lab.Prelude.{
  ℕ, suc, String, ◌<>◌, Bool, true, false, not, ◌&&◌, ◌||◌, List, [], ◌∷◌, ◌++◌, ◌==◌, HasTest, ◌≡◌,
  ◌↔◌, arith, nat_eq, string_eq, contains, set_add, length, leb, ltb, if◌then◌else◌,
}
use openurma_gem5_lab.Prelude.Dict.{Dict, has}
use openurma_gem5_lab.Prelude.Int.{pos}
use openurma_gem5_lab.Prelude.Text.{str}
use openurma_gem5_lab.Prelude.Result.{ok, err, ◌>>=◌, ◌>>◌, raise_if}
use openurma_gem5_lab.Json.{Json, null, num, arr, items, str as text}
use openurma_gem5_lab.Topology.Fields.{
  topology_error, Checked, fields, at, get_or, list, integer, name, choice,
}

-- The part of the topology that the rest of the function reads.
pub record Header : Type 0 where
  pub spec : Dict String Json
  pub title : String
  pub nodes : List Json
  pub devices : List Json
  pub switches : List Json
  pub links : List Json
  pub sync : String
  pub checkpoint : String

is_one : Json → Bool
is_one (num (pos n)) = n == 1
is_one _ = false

as_array : Json → String → Checked (List Json)
as_array (arr vs) message = ok (items vs)
as_array _ message = err (topology_error message)

abbrev required_fields : List String
required_fields =
    "schema_version" ∷ "name" ∷ "nodes" ∷ "devices" ∷ "switches" ∷ "links" ∷ "execution" ∷ []

abbrev allowed_fields : List String
allowed_fields =
    "schema_version" ∷ "name" ∷ "nodes" ∷ "devices" ∷ "switches" ∷ "links" ∷ "execution" ∷ "machine"
    ∷ []

-- Up to the checks of `execution`.
unfoldable pub read_header : Json → Checked Header
unfolding is_one as_array
read_header raw = do
  spec ← fields raw allowed_fields required_fields "topology"
  version ← at spec "schema_version"
  raise_if (not (is_one version)) (topology_error "only schema_version 1 is supported")
  raw_name ← at spec "name"
  title ← name raw_name "name"
  raw_nodes ← at spec "nodes"
  nodes ← list raw_nodes "nodes"
  raw_devices ← at spec "devices"
  devices ← list raw_devices "devices"
  raw_switches ← at spec "switches"
  switches ← as_array raw_switches "switches must be an array"
  raw_links ← at spec "links"
  links ← list raw_links "links"
  raw_execution ← at spec "execution"
  execution ←
      fields raw_execution ("sync" ∷ "checkpoint" ∷ []) ("sync" ∷ "checkpoint" ∷ []) "execution"
  raw_sync ← at execution "sync"
  sync ← choice raw_sync ("off" ∷ "required" ∷ []) "execution.sync"
  raw_checkpoint ← at execution "checkpoint"
  checkpoint ← choice raw_checkpoint ("none" ∷ "auto" ∷ []) "execution.checkpoint"
  ok (record {
    spec = spec;
    title = title;
    nodes = nodes;
    devices = devices;
    switches = switches;
    links = links;
    sync = sync;
    checkpoint = checkpoint;
  })

pub data Simulator : Type 0 where
  gem5 qemu : Simulator

abbrev simulator_beq : Simulator → Simulator → Bool
simulator_beq gem5 gem5 = true
simulator_beq qemu qemu = true
simulator_beq _ _ = false

pub simulator_beq_iff : (a b : Simulator) → (simulator_beq a b ≡ true) ↔ (a ≡ b)
simulator_beq_iff gem5 gem5 = ground arith
simulator_beq_iff gem5 qemu = ground arith
simulator_beq_iff qemu gem5 = ground arith
simulator_beq_iff qemu qemu = ground arith

instance abbrev pub simulator_eq : HasTest Simulator
simulator_eq = record { test = simulator_beq; test_iff = simulator_beq_iff }

pub record QemuNode : Type 0 where
  pub cpu : String
  pub cores : ℕ
  pub memory_mib : ℕ

-- The variables of the loop. `node_profiles` holds each gem5 node's checked `node["profile"]`,
-- which the function reads again for the plan.
pub record NodeState : Type 0 where
  pub node_names : List String
  pub simulators : List Simulator
  pub profiles : List String
  pub node_profiles : List String
  pub qemu_nodes : List QemuNode

abbrev pub no_nodes : NodeState
no_nodes = record {
  node_names = [];
  simulators = [];
  profiles = [];
  node_profiles = [];
  qemu_nodes = [];
}

abbrev pub qemu_cpus : List String
qemu_cpus =
    "cortex-a53" ∷ "cortex-a57" ∷ "cortex-a72" ∷ "cortex-a76" ∷ "cortex-a710" ∷ "neoverse-n1"
    ∷ "neoverse-n2" ∷ "neoverse-v1" ∷ "max" ∷ []

abbrev pub gem5_profiles : List String
gem5_profiles = "fast" ∷ "kvm" ∷ "server" ∷ "modern" ∷ "udma400" ∷ []

read_simulator : Json → String → Checked Simulator
read_simulator value place = do
  chosen ← choice value ("gem5" ∷ "qemu" ∷ []) place
  ok (if chosen == "gem5" then gem5 else qemu)

read_gem5_node : Dict String Json → String → NodeState → Checked NodeState
read_gem5_node node id s = do
  raise_if (has "cpu" node || has "cores" node || has "memory_mib" node)
      (topology_error (id <> ": gem5 per-node CPU and memory settings are not supported yet"))
  profile ← choice (get_or node "profile" null) gem5_profiles (id <> ".profile")
  ok (record s {
    profiles = set_add s.profiles profile;
    node_profiles = s.node_profiles ++ profile ∷ [];
  })

read_qemu_node : Dict String Json → String → NodeState → Checked NodeState
read_qemu_node node id s = do
  raise_if (has "profile" node)
      (topology_error (id <> ": QEMU uses cpu, cores and memory_mib, not profile"))
  cpu ← choice (get_or node "cpu" (text "cortex-a72")) qemu_cpus (id <> ".cpu")
  cores ← integer (get_or node "cores" (num (pos 1))) (id <> ".cores") 1
  memory_mib ← integer (get_or node "memory_mib" (num (pos 1024))) (id <> ".memory_mib") 512
  raise_if (ltb 16 cores || ltb 8192 memory_mib)
      (topology_error (id <> ": QEMU limit is 16 cores and 8192 MiB per node"))
  ok (record s {
    qemu_nodes = s.qemu_nodes ++ record { cpu = cpu; cores = cores; memory_mib = memory_mib } ∷ [];
  })

read_machine_of : Simulator → Dict String Json → String → NodeState → Checked NodeState
unfolding read_gem5_node read_qemu_node
read_machine_of gem5 node id s = read_gem5_node node id s
read_machine_of qemu node id s = read_qemu_node node id s

abbrev node_fields : List String
node_fields = "id" ∷ "simulator" ∷ "profile" ∷ "cpu" ∷ "cores" ∷ "memory_mib" ∷ []

-- One round of the loop.
unfoldable pub read_node : ℕ → Json → NodeState → Checked NodeState
unfolding read_simulator read_machine_of
read_node index raw_node s = do
  let place = "nodes[" <> str index <> "]"
  node ← fields raw_node node_fields ("id" ∷ "simulator" ∷ []) place
  raw_id ← at node "id"
  id ← name raw_id (place <> ".id")
  raise_if (contains s.node_names id) (topology_error ("duplicate node id " <> id))
  raw_simulator ← at node "simulator"
  simulator ← read_simulator raw_simulator (id <> ".simulator")
  read_machine_of simulator node id (record s {
    node_names = s.node_names ++ id ∷ [];
    simulators = set_add s.simulators simulator;
  })

unfoldable pub read_nodes : ℕ → List Json → NodeState → Checked NodeState
read_nodes index [] s = ok s
read_nodes index (raw_node ∷ rest) s = do
  s' ← read_node index raw_node s
  read_nodes (suc index) rest s'

-- `simulators.pop()`, of a set with one member
unfoldable pub only_simulator : List Simulator → Checked Simulator
only_simulator (simulator ∷ []) = ok simulator
only_simulator _ = err (topology_error "mixed gem5/QEMU nodes need a new synchronized launcher")

-- The checks behind the loop; the result is `simulator`.
unfoldable pub check_nodes : Header → NodeState → Checked Simulator
unfolding only_simulator
check_nodes h s = do
  simulator ← only_simulator s.simulators
  raise_if (simulator == gem5 && not (leb 2 (length h.nodes) && leb (length h.nodes) 8))
      (topology_error "current gem5 launcher supports 2..8 nodes")
  raise_if (simulator == qemu && not (leb 2 (length h.nodes) && leb (length h.nodes) 8))
      (topology_error "current QEMU launcher supports 2..8 nodes")
  raise_if (ltb 1 (length s.profiles))
      (topology_error "current gem5 launcher requires one shared machine profile")
  raise_if (simulator == qemu && not (h.checkpoint == "none"))
      (topology_error "current QEMU launcher does not support checkpoint restore")
  ok simulator
