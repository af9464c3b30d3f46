-- ===== src/Topology/Links.antt =====
-- ubsim_lab/topology.py: the links, of the direct layout and of the switch layout.
pub mod Numbers
pub mod Total
pub mod Direct
pub mod Linked
pub mod Accepted
use openurma_gem5_lab.Prelude.{
  ℕ, suc, ◌+◌, ◌-◌, ◌*◌, ◌/◌, String, ◌<>◌, Bool, false, not, ◌&&◌, ◌||◌, List, [], ◌∷◌, ◌++◌, ◌==◌,
  nat_eq, string_eq, pair_eq, contains, index_of, all, ltb, leb, if◌then◌else◌, Option, some, none,
}
use openurma_gem5_lab.Prelude.Dict.{Dict, has, lookup, insert}
use openurma_gem5_lab.Prelude.Text.{str}
use openurma_gem5_lab.Prelude.Result.{ok, err, ◌>>=◌, ◌>>◌, raise_if}
use openurma_gem5_lab.Json.{Json, arr, obj, str as text}
use openurma_gem5_lab.Topology.Fields.{
  Fault, topology_error, key_error, type_error, Checked, fields, at, integer,
}
use openurma_gem5_lab.Topology.Machine.{Switch}
use openurma_gem5_lab.Topology.Devices.{Device}

-- What a link says of its rate and its delay.
pub record NodeLink : Type 0 where
  pub rate_gbps : ℕ
  pub latency_ns : ℕ

-- A list or a dict as a set's member or a dict's key is a `TypeError`.
hash : Json → Checked Json
hash (arr vs) = err type_error
hash (obj ms) = err type_error
hash value = ok value

is_text : Json → String → Bool
is_text (text value) s = value == s
is_text _ s = false

text_in : Json → List String → Bool
text_in (text value) names = contains names value
text_in _ names = false

-- `{a, b} == set(names)`
is_pair_of : Json → Json → List String → Bool
unfolding is_text text_in
is_pair_of a b names =
    text_in a names && text_in b names && all (λ s. is_text a s || is_text b s) names

abbrev pub direct_fields : List String
direct_fields =
    "device" ∷ "device_port" ∷ "peer_device" ∷ "peer_port" ∷ "rate_gbps" ∷ "latency_ns" ∷ []

-- The body of `if direct` behind its first check.
read_direct_link : Json → List String → Checked (List NodeLink)
unfolding hash is_pair_of
read_direct_link raw devices = do
  link ← fields raw direct_fields direct_fields "links[0]"
  device ← at link "device"
  hash device
  peer_device ← at link "peer_device"
  hash peer_device
  raise_if (not (is_pair_of device peer_device devices))
      (topology_error "direct UB link must connect the two distinct UDMA devices")
  raw_device_port ← at link "device_port"
  device_port ← integer raw_device_port "links[0].device_port" 0
  raise_if (not (device_port == 0))
      (topology_error "direct UB link must use port 0 on both devices")
  raw_peer_port ← at link "peer_port"
  peer_port ← integer raw_peer_port "links[0].peer_port" 0
  raise_if (not (peer_port == 0)) (topology_error "direct UB link must use port 0 on both devices")
  raw_rate ← at link "rate_gbps"
  rate ← integer raw_rate "links[0].rate_gbps" 1
  raw_latency ← at link "latency_ns"
  latency ← integer raw_latency "links[0].latency_ns" 2
  raise_if (ltb 100000 rate || ltb 1000000000 latency)
      (topology_error "direct UB link rate or delay exceeds launcher limit")
  ok (
      record { rate_gbps = rate; latency_ns = latency / 2 }
      ∷ record { rate_gbps = rate; latency_ns = latency - latency / 2 }
      ∷ [])

-- `node_links` of the direct layout
unfoldable pub direct_links : ℕ → ℕ → List Json → List String → Checked (List NodeLink)
unfolding read_direct_link
direct_links nodes port_count (raw ∷ []) devices =
    if not (nodes == 2) || not (port_count == 1)
    then err (topology_error "direct UB link requires two nodes, one port each and one link")
    else read_direct_link raw devices
direct_links nodes port_count _ devices =
    err (topology_error "direct UB link requires two nodes, one port each and one link")

-- The variables of the loop over the switch links.
pub record LinkState : Type 0 where
  pub seen_device_ports : List (String × ℕ)
  pub seen_switch_ports : List ℕ
  pub link_by_device : Dict String (ℕ × ℕ)

abbrev pub no_links : LinkState
no_links = record { seen_device_ports = []; seen_switch_ports = []; link_by_device = [] }

-- `link["device"]`, if it is the id of a device
unfoldable pub known_device : Json → Dict String Device → Checked (Option String)
known_device (arr vs) by_device = err type_error
known_device (obj ms) by_device = err type_error
known_device (text id) by_device = ok (if has id by_device then some id else none)
known_device _ by_device = ok none

unknown_link : String → Fault
unknown_link place = topology_error (place <> ": unknown device or switch")

-- The end at the switch, behind a known device.
switch_end : Dict String Json → Switch → String → Option String → Checked String
unfolding is_text unknown_link
switch_end link switch place none = err (unknown_link place)
switch_end link switch place (some id) = do
  raw_switch ← at link "switch"
  raise_if (not (is_text raw_switch switch.id)) (unknown_link place)
  ok id

-- The first check of the loop body: a known device and the name of the switch.
read_ends : Dict String Json → Dict String Device → Switch → String → Checked String
unfolding known_device switch_end
read_ends link by_device switch place = do
  raw_device ← at link "device"
  found ← known_device raw_device by_device
  switch_end link switch place found

-- `by_device[id]`
unfoldable pub device_of : String → Dict String Device → Checked Device
device_of id by_device = elim (lookup id by_device) [ none ↦ err (key_error id) | some d ↦ ok d ]

-- `previous = link_by_device.setdefault(id, entry)`
unfoldable pub previous_of : String → ℕ × ℕ → Dict String (ℕ × ℕ) → ℕ × ℕ
previous_of id entry d = elim (lookup id d) [ none ↦ entry | some previous ↦ previous ]

unfoldable pub set_default : String → ℕ × ℕ → Dict String (ℕ × ℕ) → Dict String (ℕ × ℕ)
set_default id entry d = if has id d then d else insert id entry d

abbrev switch_link_fields : List String
switch_link_fields =
    "device" ∷ "device_port" ∷ "switch" ∷ "switch_port" ∷ "rate_gbps" ∷ "latency_ns" ∷ []

module _ (node_names : List String) (port_count : ℕ) (by_device : Dict String Device)
    (switch : Switch) where
  -- `required_port`
  unfoldable pub required_port : Device → ℕ → ℕ
  required_port device device_port = index_of device.node node_names * port_count + device_port

  -- One round of the loop.
  unfoldable pub read_link : ℕ → Json → LinkState → Checked LinkState
  unfolding read_ends device_of previous_of set_default required_port
  read_link index raw_link s = do
    let place = "links[" <> str index <> "]"
    link ← fields raw_link switch_link_fields switch_link_fields place
    id ← read_ends link by_device switch place
    raw_device_port ← at link "device_port"
    device_port ← integer raw_device_port (place <> ".device_port") 0
    raw_switch_port ← at link "switch_port"
    switch_port ← integer raw_switch_port (place <> ".switch_port") 0
    raise_if (leb port_count device_port) (topology_error (place <> ": device port out of range"))
    device ← device_of id by_device
    let needed = required_port device device_port
    raise_if (not (switch_port == needed))
        (topology_error (place <> ": current adapter maps this port to switch port " <> str needed))
    raise_if
        (contains s.seen_device_ports (id, device_port) || contains s.seen_switch_ports switch_port)
        (topology_error (place <> ": port is connected more than once"))
    raw_rate ← at link "rate_gbps"
    rate ← integer raw_rate (place <> ".rate_gbps") 1
    raw_latency ← at link "latency_ns"
    latency ← integer raw_latency (place <> ".latency_ns") 1
    raise_if (ltb 100000 rate || ltb 1000000000 latency)
        (topology_error (place <> ": rate or propagation delay exceeds launcher limit"))
    let entry : ℕ × ℕ = (rate, latency)
    raise_if (not (previous_of id entry s.link_by_device == entry)) (
        topology_error
          (place <> ": all ports of one device currently need the same rate and delay"))
    ok (record {
      seen_device_ports = s.seen_device_ports ++ (id, device_port) ∷ [];
      seen_switch_ports = s.seen_switch_ports ++ switch_port ∷ [];
      link_by_device = set_default id entry s.link_by_device;
    })

  unfoldable pub read_links : ℕ → List Json → LinkState → Checked LinkState
  read_links index [] s = ok s
  read_links index (raw_link ∷ rest) s = do
    s' ← read_link index raw_link s
    read_links (suc index) rest s'

-- `by_node[node]`
unfoldable pub device_at : Dict String Device → String → Checked Device
device_at by_node node = elim (lookup node by_node) [ none ↦ err (key_error node) | some d ↦ ok d ]

-- `link_by_device[id]`
unfoldable pub entry_at : Dict String (ℕ × ℕ) → String → Checked (ℕ × ℕ)
entry_at d id = elim (lookup id d) [ none ↦ err (key_error id) | some entry ↦ ok entry ]

-- `link_by_device[by_node[node]["id"]]`
unfoldable pub link_of : Dict String Device → Dict String (ℕ × ℕ) → String → Checked NodeLink
link_of by_node link_by_device node = do
  device ← device_at by_node node
  entry ← entry_at link_by_device device.id
  ok (record { rate_gbps = entry.0; latency_ns = entry.1 })

unfoldable pub collect_links :
    Dict String Device → Dict String (ℕ × ℕ) → List String → Checked (List NodeLink)
unfolding link_of
collect_links by_node link_by_device [] = ok []
collect_links by_node link_by_device (node ∷ rest) = do
  link ← link_of by_node link_by_device node
  links ← collect_links by_node link_by_device rest
  ok (link ∷ links)
