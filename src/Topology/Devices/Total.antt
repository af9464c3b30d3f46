-- ===== src/Topology/Devices/Total.antt =====
-- ubsim_lab/topology.py: the loop over the devices raises no `KeyError`.
use openurma_gem5_lab.Prelude.{ℕ, suc, String, List, [], ◌∷◌, Option}
use openurma_gem5_lab.Prelude.Dict.{Dict}
use openurma_gem5_lab.Json.{Json, str as text}
use openurma_gem5_lab.Topology.Fields.NoKeyError.{
  NoKeyError, NoKeyError-ok, NoKeyError-at, NoKeyError-bind, NoKeyError-topology_error, total_rules,
}
use openurma_gem5_lab.Topology.Nodes.{Simulator}
use openurma_gem5_lab.Topology.Machine.{Switch}
use openurma_gem5_lab.Topology.Devices.{
  Device, DeviceState, free_node, read_limit, read_device, read_devices, only_count, check_devices,
}

NoKeyError-free_node :
    (raw : Json) (id : String) (names : List String) (by_node : Dict String Device)
    → NoKeyError (free_node raw id names by_node)
unfolding free_node
NoKeyError-free_node (text node) id names by_node = search total_rules
NoKeyError-free_node _ id names by_node = NoKeyError-topology_error _

NoKeyError-read_limit :
    (device : Dict String Json) (id : String) (s : DeviceState)
    → NoKeyError (read_limit device id s)
unfolding read_limit
NoKeyError-read_limit device id s = search (total_rules, NoKeyError-at) depth 10 fits 5000

module _ (simulator : Simulator) (node_names : List String) (switch : Option Switch) where
  NoKeyError-read_device :
      (index : ℕ) (raw : Json) (s : DeviceState)
      → NoKeyError (read_device simulator node_names switch index raw s)
  unfolding read_device
  NoKeyError-read_device index raw s =
      search (total_rules, NoKeyError-free_node, NoKeyError-read_limit) depth 40 fits 20000

  pub NoKeyError-read_devices :
      (index : ℕ) (raws : List Json) (s : DeviceState)
      → NoKeyError (read_devices simulator node_names switch index raws s)
  unfolding read_devices
  NoKeyError-read_devices index [] s = NoKeyError-ok s
  NoKeyError-read_devices index (raw ∷ rest) s =
      NoKeyError-bind _ _ (NoKeyError-read_device index raw s)
        λ s' _. NoKeyError-read_devices (suc index) rest s'

NoKeyError-only_count : (counts : List ℕ) → NoKeyError (only_count counts)
unfolding only_count
NoKeyError-only_count (count ∷ []) = NoKeyError-ok count
NoKeyError-only_count _ = NoKeyError-topology_error _

pub NoKeyError-check_devices :
    (nodes devices : ℕ) (s : DeviceState) → NoKeyError (check_devices nodes devices s)
unfolding check_devices
NoKeyError-check_devices nodes devices s =
    search (total_rules, NoKeyError-only_count) depth 20 fits 5000
