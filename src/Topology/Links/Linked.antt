-- ===== src/Topology/Links/Linked.antt =====
-- ubsim_lab/topology.py: the accepted switch links fill the ports of every device.
use openurma_gem5_lab.Prelude.{
  ℕ, suc, ◌+◌, ◌*◌, ◌≤◌, ◌<◌, String, ◌≡◌, true, false, ◌||◌, List, [], ◌∷◌, nat_eq, string_eq,
  eq_iff, contains, contains-append, Distinct, Distinct-snoc, index_of, index_of-lt,
  index_of-injective, length, length-append, arith, some, Bool-cases, inl, inr, ◌∙◌, sym,
  range_from, length-range_from, ◌++◌, ap, refl, get_elem?,
}
use openurma_gem5_lab.Prelude.Dict.{Dict, lookup, has}
use mathlib.Core.Path.{subst}
use openurma_gem5_lab.Prelude.Entries.{get_elem?-front, get_elem?-last}
use openurma_gem5_lab.Prelude.Pigeonhole.{contains_of_full, contains-range_from, IsWithin}
use openurma_gem5_lab.Prelude.Result.{Ensures, Ensures-bind, Ensures-ok, ok}
use openurma_gem5_lab.Json.{Json}
use openurma_gem5_lab.Topology.Machine.{Switch}
use openurma_gem5_lab.Topology.Devices.{Device}
use openurma_gem5_lab.Topology.Links.{LinkState, no_links, required_port, read_links}
use openurma_gem5_lab.Topology.Links.Accepted.{Accepted, read_link-Accepted}
use openurma_gem5_lab.Topology.Links.Numbers.{
  port_below, port_owner, InRates, lookup-set_default, has-set_default,
}

module _ (node_names : List String) (port_count : ℕ) (by_device : Dict String Device)
    (switch : Switch)
    (known : (id : String) (d : Device)
      → lookup id by_device ≡ some d
      → contains node_names d.node ≡ true) where
  abbrev port : Device → ℕ → ℕ
  port = required_port node_names port_count by_device switch

  -- The device that a taken switch port belongs to: one link took both ports.
  pub record Owner (s : LinkState) (k : ℕ) : Type 0 where
    pub id : String
    pub device : Device
    pub device_port : ℕ
    pub found : lookup id by_device ≡ some device
    pub in_range : device_port < port_count
    pub is_port : k ≡ port device device_port
    pub place : ℕ
    pub from_device : get_elem? s.seen_device_ports place ≡ some (id, device_port)
    pub to_switch : get_elem? s.seen_switch_ports place ≡ some k
    pub linked : has id s.link_by_device ≡ true

  pub record IsLinked (s : LinkState) : Type 0 where
    pub distinct : Distinct s.seen_switch_ports
    pub paired : length s.seen_device_ports ≡ length s.seen_switch_ports
    pub owned : (k : ℕ) → contains s.seen_switch_ports k ≡ true → Owner s k
    pub rates :
        (id : String) (entry : ℕ × ℕ) → lookup id s.link_by_device ≡ some entry → InRates entry

  no_links-IsLinked : IsLinked no_links
  unfolding lookup
  no_links-IsLinked = record {
    distinct = tt;
    paired = refl;
    owned = λ k h. absurd (cc);
    rates = λ id entry h. absurd (cc);
  }

  module _ {s s' : LinkState} (v : IsLinked s)
      (a : Accepted node_names port_count by_device switch s s') where
    kept : (k : ℕ) → Owner s k → Owner s' k
    kept k o = record {
      id = o.id;
      device = o.device;
      device_port = o.device_port;
      found = o.found;
      in_range = o.in_range;
      is_port = o.is_port;
      place = o.place;
      from_device = rw a.result (get_elem?-front s.seen_device_ports _ o.place _ o.from_device);
      to_switch = rw a.result (get_elem?-front s.seen_switch_ports _ o.place _ o.to_switch);
      linked = rw (a.result, has-set_default) (ground (arith, o.linked));
    }

    taken : (k : ℕ) → port a.device a.device_port ≡ k → Owner s' k
    taken k e = record {
      id = a.id;
      device = a.device;
      device_port = a.device_port;
      found = a.known;
      in_range = a.in_range;
      is_port = sym e;
      place = length s.seen_switch_ports;
      from_device = rw a.result (
          subst
            (λ n.
              get_elem? (s.seen_device_ports ++ (a.id, a.device_port) ∷ []) n
              ≡ some (a.id, a.device_port))
            v.paired (get_elem?-last s.seen_device_ports (a.id, a.device_port)));
      to_switch =
          rw a.result
            (get_elem?-last s.seen_switch_ports (port a.device a.device_port) ∙ ap some e);
      linked = rw (a.result, has-set_default) (ground (arith, eq_iff a.id a.id));
    }

    owned-Accepted : (k : ℕ) → contains s'.seen_switch_ports k ≡ true → Owner s' k
    owned-Accepted k h = elim (Bool-cases (contains s.seen_switch_ports k)) [
      | inl old ↦ kept k (v.owned k old)
      | inr new ↦ taken k (last new (rw (a.result, contains-append) at h))
    ]
      where
        last :
            contains s.seen_switch_ports k ≡ false
            → (contains s.seen_switch_ports k || contains (port a.device a.device_port ∷ []) k)
              ≡ true
            → port a.device a.device_port ≡ k
        last new h = ground arith

    IsLinked-Accepted : IsLinked s'
    IsLinked-Accepted = record {
      distinct = rw a.result (Distinct-snoc s.seen_switch_ports _ a.free v.distinct);
      paired = rw a.result (
          omega (
            arith,
            v.paired,
            length-append s.seen_device_ports ((a.id, a.device_port) ∷ []),
            length-append s.seen_switch_ports (port a.device a.device_port ∷ []),
          ));
      owned = owned-Accepted;
      rates = λ id entry h.
          elim (lookup-set_default id a.id (a.rate, a.latency) s.link_by_device entry
            (rw a.result at h)) [
              | inl e ↦ rw e (a.rate_low, a.rate_high, a.latency_low, a.latency_high)
              | inr old ↦ v.rates id entry old
            ];
    }

    length-Accepted : length s'.seen_switch_ports ≡ suc (length s.seen_switch_ports)
    length-Accepted =
        rw a.result
          (omega (arith, length-append s.seen_switch_ports (port a.device a.device_port ∷ [])))

  read_links-IsLinked_from :
      (index : ℕ) (raws : List Json) (s : LinkState)
      → IsLinked s
      → Ensures
          (λ s'.
            IsLinked s' × (length s'.seen_switch_ports ≡ length s.seen_switch_ports + length raws))
          (read_links node_names port_count by_device switch index raws s)
  unfolding read_links
  read_links-IsLinked_from index [] s v = Ensures-ok s (v, omega arith)
  read_links-IsLinked_from index (raw ∷ rest) s v = Ensures-bind _ _ λ s' step.
      let a =
        (read_link-Accepted node_names port_count by_device switch index raw s).holds s' step in
      record {
        holds = λ t h.
            let (linked, more) =
              (read_links-IsLinked_from (suc index) rest s' (IsLinked-Accepted v a)).holds t h in
            (linked, omega (arith, length-Accepted v a));
      }

  -- The loop takes one port with each link.
  pub read_links-IsLinked :
      (raws : List Json)
      → Ensures
          (λ s. IsLinked s × (length s.seen_switch_ports ≡ length raws))
          (read_links node_names port_count by_device switch 0 raws no_links)
  read_links-IsLinked raws = record {
    holds = λ s h.
        let (linked, count) =
          (read_links-IsLinked_from 0 raws no_links no_links-IsLinked).holds s h in
        (linked, omega arith);
  }

  below :
      (s : LinkState)
      → IsLinked s
      → IsWithin s.seen_switch_ports (range_from 0 (length node_names * port_count))
  unfolding required_port
  below s v k h =
      let o = v.owned k h in
      contains-range_from 0 (length node_names * port_count) k (omega arith) (
        omega (
          arith,
          o.is_port,
          port_below (index_of o.device.node node_names) o.device_port (length node_names)
              port_count (index_of-lt o.device.node node_names (known o.id o.device o.found))
              o.in_range,
        ))

  -- With as many links as ports, each switch port is taken.
  pub every_port_taken :
      (s : LinkState)
      → IsLinked s
      → length s.seen_switch_ports ≡ length node_names * port_count
      → (k : ℕ) → k < length node_names * port_count
      → contains s.seen_switch_ports k ≡ true
  every_port_taken s v full k lt =
      contains_of_full (range_from 0 (length node_names * port_count)) s.seen_switch_ports
        v.distinct (below s v) (omega (arith, length-range_from 0 (length node_names * port_count)))
        k (contains-range_from 0 _ k (omega arith) (omega arith))

  -- So each node has a device with a link.
  pub node_linked :
      (s : LinkState)
      → IsLinked s
      → length s.seen_switch_ports ≡ length node_names * port_count
      → 1 ≤ port_count
      → (node : String) → contains node_names node ≡ true
      → (id : String) × (d : Device) × (lookup id by_device ≡ some d)
        × (d.node ≡ node)
        × (has id s.link_by_device ≡ true)
  unfolding required_port
  node_linked s v full wide node m =
      let i = index_of node node_names in
      let lt = index_of-lt node node_names m in
      let o = v.owned (i * port_count) (
        every_port_taken s v full (i * port_count)
          (omega (arith, port_below i 0 (length node_names) port_count lt wide))) in
      (
        o.id,
        o.device,
        o.found,
        index_of-injective o.device.node node node_names (known o.id o.device o.found) m (
            port_owner (index_of o.device.node node_names) o.device_port i port_count o.in_range
              (sym o.is_port)),
        o.linked,
      )

-- If the loop accepts as many switch links as the devices have ports together, and the devices
-- stand at nodes of the topology, then every port of the switch below that number is taken, by the
-- link of a port `q` of one of the devices, whose link is recorded; and the number of the switch's port
-- is the place of the device's node times the number of ports, plus `q`.
pub read_links-fills_switch :
    (node_names : List String) (port_count : ℕ) (by_device : Dict String Device) (switch : Switch)
    → ((id : String) (d : Device)
        → lookup id by_device ≡ some d
        → contains node_names d.node ≡ true)
    → (raws : List Json) (s : LinkState) → length raws ≡ length node_names * port_count
    → read_links node_names port_count by_device switch 0 raws no_links ≡ ok s
    → (k : ℕ) → k < length node_names * port_count
    → (contains s.seen_switch_ports k ≡ true)
      × ((id : String) × (d : Device) × (q : ℕ) × (lookup id by_device ≡ some d)
          × (q < port_count)
          × (k ≡ index_of d.node node_names * port_count + q)
          × ((place : ℕ) × (get_elem? s.seen_device_ports place ≡ some (id, q))
              × (get_elem? s.seen_switch_ports place ≡ some k))
          × (has id s.link_by_device ≡ true))
unfolding required_port
read_links-fills_switch node_names port_count by_device switch known raws s count read k lt =
    let (v, taken) =
      (read_links-IsLinked node_names port_count by_device switch known raws).holds s read in
    let there =
      every_port_taken node_names port_count by_device switch known s v (taken ∙ count) k lt in
    let o = v.owned k there in
    (
      there,
      (
        o.id,
        o.device,
        o.device_port,
        o.found,
        o.in_range,
        o.is_port,
        (o.place, o.from_device, o.to_switch),
        o.linked,
      ),
    )
