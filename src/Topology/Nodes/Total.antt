-- ===== src/Topology/Nodes/Total.antt =====
-- ubsim_lab/topology.py: the head and the loop over the nodes raise no `KeyError`.
use openurma_gem5_lab.Prelude.{ℕ, suc, String, List, [], ◌∷◌}
use openurma_gem5_lab.Prelude.Dict.{Dict}
use openurma_gem5_lab.Json.{Json, arr}
use openurma_gem5_lab.Topology.Fields.NoKeyError.{
  NoKeyError, NoKeyError-ok, NoKeyError-topology_error, NoKeyError-bind, total_rules,
}
use openurma_gem5_lab.Topology.Nodes.{
  Header, read_header, as_array, Simulator, gem5, qemu, NodeState, read_simulator, read_machine_of,
  read_node, read_nodes, only_simulator, check_nodes,
}

NoKeyError-as_array : (raw : Json) (message : String) → NoKeyError (as_array raw message)
unfolding as_array
NoKeyError-as_array (arr vs) message = NoKeyError-ok _
NoKeyError-as_array _ message = NoKeyError-topology_error message

pub NoKeyError-read_header : (raw : Json) → NoKeyError (read_header raw)
unfolding read_header
NoKeyError-read_header raw = search (total_rules, NoKeyError-as_array) depth 60 fits 20000

NoKeyError-read_simulator : (raw : Json) (place : String) → NoKeyError (read_simulator raw place)
unfolding read_simulator
NoKeyError-read_simulator raw place = search total_rules

NoKeyError-read_machine_of :
    (simulator : Simulator) (node : Dict String Json) (id : String) (s : NodeState)
    → NoKeyError (read_machine_of simulator node id s)
unfolding read_machine_of
NoKeyError-read_machine_of gem5 node id s = search total_rules depth 20 fits 5000
NoKeyError-read_machine_of qemu node id s = search total_rules depth 20 fits 5000

NoKeyError-read_node : (index : ℕ) (raw : Json) (s : NodeState) → NoKeyError (read_node index raw s)
unfolding read_node
NoKeyError-read_node index raw s =
    search (total_rules, NoKeyError-read_simulator, NoKeyError-read_machine_of) depth 30 fits 10000

pub NoKeyError-read_nodes :
    (index : ℕ) (raws : List Json) (s : NodeState) → NoKeyError (read_nodes index raws s)
unfolding read_nodes
NoKeyError-read_nodes index [] s = NoKeyError-ok s
NoKeyError-read_nodes index (raw ∷ rest) s =
    NoKeyError-bind _ _ (NoKeyError-read_node index raw s)
      λ s' _. NoKeyError-read_nodes (suc index) rest s'

NoKeyError-only_simulator : (ss : List Simulator) → NoKeyError (only_simulator ss)
unfolding only_simulator
NoKeyError-only_simulator (s ∷ []) = NoKeyError-ok s
NoKeyError-only_simulator _ = NoKeyError-topology_error _

pub NoKeyError-check_nodes : (h : Header) (s : NodeState) → NoKeyError (check_nodes h s)
unfolding check_nodes
NoKeyError-check_nodes h s = search (total_rules, NoKeyError-only_simulator) depth 20 fits 5000
