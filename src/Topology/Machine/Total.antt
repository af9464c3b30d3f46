-- ===== src/Topology/Machine/Total.antt =====
-- ubsim_lab/topology.py: the `machine` object and the switch raise no `KeyError`.
use openurma_gem5_lab.Prelude.{ℕ, String, List, [], ◌∷◌}
use openurma_gem5_lab.Prelude.Dict.{Dict}
use openurma_gem5_lab.Json.{Json}
use openurma_gem5_lab.Topology.Fields.NoKeyError.{
  NoKeyError, NoKeyError-ok, NoKeyError-at, NoKeyError-topology_error, total_rules,
}
use openurma_gem5_lab.Topology.Nodes.{Simulator}
use openurma_gem5_lab.Topology.Machine.{
  optional_integer, optional_prefetcher, read_machine, read_one_switch, read_switch,
}

NoKeyError-optional_integer :
    (machine : Dict String Json) (field place : String) (minimum maximum : ℕ) (message : String)
    → NoKeyError (optional_integer machine field place minimum maximum message)
unfolding optional_integer
NoKeyError-optional_integer machine field place minimum maximum message =
    search (total_rules, NoKeyError-at) depth 10 fits 5000

NoKeyError-optional_prefetcher :
    (machine : Dict String Json) → NoKeyError (optional_prefetcher machine)
unfolding optional_prefetcher
NoKeyError-optional_prefetcher machine = search (total_rules, NoKeyError-at) depth 10 fits 5000

pub NoKeyError-read_machine :
    (spec : Dict String Json) (simulator : Simulator) → NoKeyError (read_machine spec simulator)
unfolding read_machine
NoKeyError-read_machine spec simulator =
    search (total_rules, NoKeyError-at, NoKeyError-optional_integer, NoKeyError-optional_prefetcher)
      depth 20 fits 10000

NoKeyError-read_one_switch : (raw : Json) → NoKeyError (read_one_switch raw)
unfolding read_one_switch
NoKeyError-read_one_switch raw = search total_rules depth 20 fits 10000

pub NoKeyError-read_switch : (raws : List Json) → NoKeyError (read_switch raws)
unfolding read_switch
NoKeyError-read_switch [] = NoKeyError-ok _
NoKeyError-read_switch (raw ∷ []) = NoKeyError-read_one_switch raw
NoKeyError-read_switch (raw ∷ raw' ∷ rest) = NoKeyError-topology_error _
