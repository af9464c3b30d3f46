-- ===== src/Topology/Devices.antt =====
-- ubsim_lab/topology.py: the loop over the devices, and the checks that follow it.
pub mod Total
pub mod Matched
pub mod Paired
pub mod Accepted
use openurma_gem5_lab.Prelude.{
  ℕ, suc, ◌+◌, String, ◌<>◌, Bool, false, not, ◌||◌, List, [], ◌∷◌, ◌==◌, nat_eq, string_eq,
  contains, index_of, set_add, length, ltb, if◌then◌else◌, Option, some, none,
}
use openurma_gem5_lab.Prelude.Dict.{Dict, has, insert}
use openurma_gem5_lab.Prelude.Text.{str}
use openurma_gem5_lab.Prelude.Result.{ok, err, ◌>>=◌, ◌>>◌, raise_if}
use openurma_gem5_lab.Json.{Json, str as text}
use openurma_gem5_lab.Topology.Fields.{topology_error, Checked, fields, at, integer, name}
use openurma_gem5_lab.Topology.Nodes.{Simulator, gem5, qemu}
use openurma_gem5_lab.Topology.Machine.{Switch}

-- Of an accepted device the function reads its id and its node again.
pub record Device : Type 0 where
  pub id : String
  pub node : String

pub record DeviceState : Type 0 where
  pub by_node : Dict String Device
  pub by_device : Dict String Device
  pub counts : List ℕ
  pub limits : List ℕ
  pub specified_limits : ℕ

abbrev pub no_devices : DeviceState
no_devices = record { by_node = []; by_device = []; counts = []; limits = []; specified_limits = 0 }

is_switch : Option Switch → String → Bool
is_switch none id = false
is_switch (some switch) id = id == switch.id

-- `device["node"]`, if it is one of the nodes and has no device yet
free_node : Json → String → List String → Dict String Device → Checked String
free_node (text node) id node_names by_node =
    if not (contains node_names node) || has node by_node
    then err (topology_error (id <> ": node must exist and have exactly one UDMA device"))
    else ok node
free_node _ id node_names by_node =
    err (topology_error (id <> ": node must exist and have exactly one UDMA device"))

is_udma : Json → Bool
is_udma (text value) = value == "udma"
is_udma _ = false

abbrev pub port_limit : Simulator → ℕ
port_limit gem5 = 16
port_limit qemu = 8

abbrev simulator_text : Simulator → String
simulator_text gem5 = "gem5"
simulator_text qemu = "qemu"

read_limit : Dict String Json → String → DeviceState → Checked DeviceState
read_limit device id s =
    if has "max_jettys" device
    then (do
      raw ← at device "max_jettys"
      limit ← integer raw (id <> ".max_jettys") 2
      raise_if (ltb 65535 limit)
          (topology_error (id <> ".max_jettys exceeds the device limit 65535"))
      ok (record s { limits = set_add s.limits limit; specified_limits = s.specified_limits + 1 }))
    else ok s

abbrev device_fields : List String
device_fields = "id" ∷ "node" ∷ "type" ∷ "eid" ∷ "ports" ∷ "max_jettys" ∷ []

-- One round of the loop.
module _ (simulator : Simulator) (node_names : List String) (switch : Option Switch) where
  unfoldable pub read_device : ℕ → Json → DeviceState → Checked DeviceState
  unfolding is_switch free_node is_udma read_limit
  read_device index raw_device s = do
    let place = "devices[" <> str index <> "]"
    device ← fields raw_device device_fields ("id" ∷ "node" ∷ "type" ∷ "eid" ∷ "ports" ∷ []) place
    raw_id ← at device "id"
    id ← name raw_id (place <> ".id")
    raise_if (has id s.by_device || is_switch switch id)
        (topology_error ("duplicate component id " <> id))
    raw_node ← at device "node"
    node ← free_node raw_node id node_names s.by_node
    kind ← at device "type"
    raise_if (not (is_udma kind)) (topology_error (id <> ": only UDMA devices are supported"))
    raw_eid ← at device "eid"
    eid ← integer raw_eid (id <> ".eid") 0
    let node_index = index_of node node_names
    raise_if (not (eid == 256 + node_index))
        (topology_error (id <> ": current launcher requires EID " <> str (256 + node_index)))
    raw_ports ← at device "ports"
    count ← integer raw_ports (id <> ".ports") 1
    raise_if (ltb (port_limit simulator) count) (
        topology_error
          (id <> ": port count exceeds current " <> simulator_text simulator <> " limit"))
    s' ← read_limit device id (record s { counts = set_add s.counts count })
    let accepted : Device = record { id = id; node = node }
    ok (record s' {
      by_node = insert node accepted s'.by_node;
      by_device = insert id accepted s'.by_device;
    })

  unfoldable pub read_devices : ℕ → List Json → DeviceState → Checked DeviceState
  read_devices index [] s = ok s
  read_devices index (raw_device ∷ rest) s = do
    s' ← read_device index raw_device s
    read_devices (suc index) rest s'

-- `counts.pop()`, of a set with one member
unfoldable pub only_count : List ℕ → Checked ℕ
only_count (count ∷ []) = ok count
only_count _ =
    err (topology_error "current launcher requires equal port and Jetty limits on all devices")

-- The checks behind the loop; the result is `port_count`.
unfoldable pub check_devices : ℕ → ℕ → DeviceState → Checked ℕ
unfolding only_count
check_devices nodes devices s = do
  raise_if (not (length s.by_node == nodes) || not (devices == nodes))
      (topology_error "current launcher requires exactly one UDMA device per node")
  count ← only_count s.counts
  raise_if
      (ltb 1 (length s.limits) || not (s.specified_limits == 0 || s.specified_limits == devices))
      (topology_error "current launcher requires equal port and Jetty limits on all devices")
  ok count
