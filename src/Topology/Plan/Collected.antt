-- ===== src/Topology/Plan/Collected.antt =====
-- ubsim_lab/topology.py: the links, devices and machines that the plan collects for its nodes.
use openurma_gem5_lab.Prelude.{
  ℕ, suc, ◌-◌, ◌/◌, ◌*◌, ◌≤◌, String, ◌≡◌, refl, true, false, List, [], ◌∷◌, ◌==◌, nat_eq,
  string_eq, eq_iff, contains, Distinct, length, length-map, All, arith, Option, some, none,
  Bool-cases, inl, inr, ap,
}
use openurma_gem5_lab.Prelude.Dict.{Dict, lookup, keys}
use openurma_gem5_lab.Prelude.Result.{ok, Ensures, Ensures-bind, Ensures-ok, Ensures-err}
use openurma_gem5_lab.Json.{Json}
use openurma_gem5_lab.Topology.Nodes.{NodeState, Simulator, gem5, qemu, simulator_eq}
use openurma_gem5_lab.Topology.Nodes.Accepted.{IsListed}
use openurma_gem5_lab.Topology.Machine.{Switch}
use openurma_gem5_lab.Topology.Devices.{Device, DeviceState}
use openurma_gem5_lab.Topology.Devices.Accepted.{InLimits}
use openurma_gem5_lab.Topology.Devices.Paired.{IsPaired}
use openurma_gem5_lab.Topology.Links.{NodeLink, device_at, entry_at, link_of, collect_links}
use openurma_gem5_lab.Topology.Links.Direct.{IsSplit, direct_links-IsSplit}
use openurma_gem5_lab.Topology.Links.Linked.{read_links-IsLinked}
use openurma_gem5_lab.Topology.Links.Numbers.{InRates}
use openurma_gem5_lab.Topology.Plan.{
  gem5_machine, qemu_machine, ids_of, layout_links, switch_links, jetty_limit, machines_of, text,
}
use openurma_gem5_lab.Topology.Plan.Total.{known_owner}

abbrev pub InRange : NodeLink → Type 0
InRange link = InRates (link.rate_gbps, link.latency_ns)

-- One rate and delay for each node, in range.
abbrev pub AreLinks : List String → List NodeLink → Type 0
AreLinks names links = (length links ≡ length names) × All InRange links

device_at-lookup :
    (by_node : Dict String Device) (node : String)
    → Ensures (λ d. lookup node by_node ≡ some d) (device_at by_node node)
unfolding device_at
device_at-lookup by_node node = record { holds = λ d h. ground arith }

entry_at-lookup :
    (d : Dict String (ℕ × ℕ)) (id : String)
    → Ensures (λ entry. lookup id d ≡ some entry) (entry_at d id)
unfolding entry_at
entry_at-lookup d id = record { holds = λ entry h. ground arith }

collect_links-AreLinks :
    (by_node : Dict String Device) (d : Dict String (ℕ × ℕ)) (nodes : List String)
    → ((id : String) (entry : ℕ × ℕ) → lookup id d ≡ some entry → InRates entry)
    → Ensures (AreLinks nodes) (collect_links by_node d nodes)
unfolding collect_links link_of
collect_links-AreLinks by_node d [] rates = Ensures-ok _ (refl, tt)
collect_links-AreLinks by_node d (node ∷ rest) rates = Ensures-bind _ _ λ link one.
    Ensures-bind _ _ λ links more.
      let (count, ranges) = (collect_links-AreLinks by_node d rest rates).holds links more in
      Ensures-ok _ (ap suc count, (link_range.holds link one, ranges))
  where
    link_range : Ensures InRange (link_of by_node d node)
    link_range = Ensures-bind _ _ λ device _. Ensures-bind _ _ λ entry found.
        Ensures-ok _ (rates device.id entry ((entry_at-lookup d device.id).holds entry found))

module _ {simulator : Simulator} {names : List String} {switch : Option Switch} {s : DeviceState}
    (p : IsPaired simulator names switch s) where
  -- A device id of the list belongs to a node of the list.
  record Source (nodes : List String) (id : String) : Type 0 where
    node : String
    device : Device
    listed : contains nodes node ≡ true
    at_node : lookup node s.by_node ≡ some device
    same : device.id ≡ id

  ids_of-Source :
      (nodes : List String)
      → Ensures
          (λ ids. (id : String) → contains ids id ≡ true → Source nodes id)
          (ids_of s.by_node nodes)
  unfolding ids_of
  ids_of-Source [] = Ensures-ok _ (λ id m. absurd (cc))
  ids_of-Source (node ∷ rest) = Ensures-bind _ _ λ device one. Ensures-bind _ _ λ ids more.
      Ensures-ok _ λ id m. elim (Bool-cases (device.id == id)) [
        | inl same ↦ record {
          node = node;
          device = device;
          listed = ground (arith, eq_iff node node);
          at_node = (device_at-lookup s.by_node node).holds device one;
          same = (eq_iff device.id id).0 same;
        }
        | inr differ ↦
            let o = (ids_of-Source rest).holds ids more id (ground arith) in
            record {
              node = o.node;
              device = o.device;
              listed = ground (arith, o.listed);
              at_node = o.at_node;
              same = o.same;
            }
      ]

  -- Two nodes have no device in common.
  one_node :
      (node node' : String) (d d' : Device)
      → lookup node s.by_node ≡ some d
      → lookup node' s.by_node ≡ some d'
      → d'.id ≡ d.id
      → node ≡ node'
  one_node node node' d d' at_node at_node' same =
      let (is_node, back) = p.owns node d at_node in
      let (is_node', back') = p.owns node' d' at_node' in ground (arith, rw same at back')

  pub ids_of-Distinct :
      (nodes : List String)
      → Distinct nodes
      → Ensures (λ ids. (length ids ≡ length nodes) × Distinct ids) (ids_of s.by_node nodes)
  unfolding ids_of
  ids_of-Distinct [] u = Ensures-ok _ (refl, tt)
  ids_of-Distinct (node ∷ rest) (fresh, u) = Ensures-bind _ _ λ device one.
      Ensures-bind _ _ λ ids more.
        let (count, distinct) = (ids_of-Distinct rest u).holds ids more in
        Ensures-ok _ (ap suc count, (absent device ids one more, distinct))
    where
      absent :
          (device : Device) (ids : List String)
          → device_at s.by_node node ≡ ok device
          → ids_of s.by_node rest ≡ ok ids
          → contains ids device.id ≡ false
      absent device ids one more = elim (Bool-cases (contains ids device.id)) [
        | inr new ↦ new
        | inl old ↦
            let o = (ids_of-Source rest).holds ids more device.id old in
            let e =
              one_node node o.node device o.device
                ((device_at-lookup s.by_node node).holds device one) o.at_node o.same in
            absurd (ground (arith, rw (← e) at o.listed, fresh))
      ]

  switch_links-AreLinks :
      (port_count : ℕ) (one : Switch) (raws : List Json)
      → Ensures (AreLinks names) (switch_links names port_count s one raws)
  unfolding switch_links
  switch_links-AreLinks port_count one raws =
      elim (Bool-cases (length raws == length names * port_count)) [
        | inr differ ↦ rw differ (Ensures-err _)
        | inl same ↦ rw same (
            Ensures-bind _ _ λ t read.
              let (linked, _) =
                (read_links-IsLinked names port_count s.by_device one (known_owner p) raws).holds t
                  read in
              collect_links-AreLinks s.by_node t.link_by_device names linked.rates)
      ]

abbrev HalvesInRange : ℕ → ℕ → Type 0
HalvesInRange rate latency = InRates (rate, latency / 2) × InRates (rate, latency - latency / 2)

IsSplit-AreLinks :
    (names : List String) (port_count : ℕ) (raws : List Json) (links : List NodeLink)
    → IsSplit (length names) port_count raws links
    → AreLinks names links
IsSplit-AreLinks names port_count raws links v =
    let low = v.rate_low in
    let high = v.rate_high in
    let small = v.latency_low in
    let large = v.latency_high in
    let r : HalvesInRange v.rate v.latency = omega arith in
    rw v.halves (omega (arith, v.two), (r.0, (r.1, tt)))

pub layout_links-AreLinks :
    {simulator : Simulator} (names : List String) (switch : Option Switch) {s : DeviceState}
    → IsPaired simulator names switch s
    → (port_count : ℕ) (raws : List Json)
    → Ensures (AreLinks names) (layout_links names port_count s switch raws)
unfolding layout_links
layout_links-AreLinks names none {s} p port_count raws = record {
  holds = λ links h.
      IsSplit-AreLinks names port_count raws links
        ((direct_links-IsSplit (length names) port_count raws (keys s.by_device)).holds links h);
}
layout_links-AreLinks names (some one) p port_count raws =
    switch_links-AreLinks p port_count one raws

pub jetty_limit_bounds :
    (limits : List ℕ) (simulator : Simulator) (profiles : List String)
    → InLimits limits
    → (2 ≤ jetty_limit limits simulator profiles) × (jetty_limit limits simulator profiles ≤ 65535)
unfolding jetty_limit
jetty_limit_bounds (limit ∷ rest) simulator profiles v = v.0
jetty_limit_bounds [] gem5 profiles v = ground arith
jetty_limit_bounds [] qemu profiles v = ground arith

pub length-machines_of :
    (simulator : Simulator) (s : NodeState) (machine : Dict String Json)
    → IsListed s
    → s.simulators ≡ simulator ∷ []
    → length (machines_of simulator s machine) ≡ length s.node_names
unfolding machines_of
length-machines_of gem5 s machine v only =
    let none_left = v.no_qemu (rw only refl) in
    omega (
      arith,
      length-map (λ profile. gem5_machine (("profile", text profile) ∷ machine)) s.node_profiles,
      v.counted,
      ap length none_left,
    )
length-machines_of qemu s machine v only =
    let none_left = v.no_gem5 (rw only refl) in
    omega (arith, length-map qemu_machine s.qemu_nodes, v.counted, ap length none_left)
