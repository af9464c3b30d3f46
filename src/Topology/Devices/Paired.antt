-- ===== src/Topology/Devices/Paired.antt =====
-- ubsim_lab/topology.py: the two dicts of the devices pair nodes and devices one to one.
use openurma_gem5_lab.Prelude.{
  ℕ, suc, ◌≤◌, String, ◌≡◌, true, List, [], ◌∷◌, nat_eq, string_eq, eq_iff, contains, Distinct,
  arith, Option, some, All,
}
use openurma_gem5_lab.Prelude.Dict.{
  lookup, has, keys, lookup-insert, has-insert, Distinct-insert, has_of_lookup,
}
use openurma_gem5_lab.Prelude.Result.{Ensures, Ensures-bind, Ensures-ok}
use openurma_gem5_lab.Json.{Json}
use openurma_gem5_lab.Topology.Nodes.{Simulator}
use openurma_gem5_lab.Topology.Machine.{Switch}
use openurma_gem5_lab.Topology.Devices.{Device, DeviceState, no_devices, read_devices, port_limit}
use openurma_gem5_lab.Topology.Devices.Accepted.{
  Accepted, read_device-Accepted, InLimits, set_add-All,
}

module _ (simulator : Simulator) (node_names : List String) (switch : Option Switch) where
  -- Each entry of one dict is an entry of the other, and the nodes are nodes of the topology.
  pub record IsPaired (s : DeviceState) : Type 0 where
    pub owned :
        (id : String) (d : Device)
        → lookup id s.by_device ≡ some d
        → (d.id ≡ id) × (lookup d.node s.by_node ≡ some d)
    pub owns :
        (node : String) (d : Device)
        → lookup node s.by_node ≡ some d
        → (d.node ≡ node) × (lookup d.id s.by_device ≡ some d)
    pub known : (node : String) → has node s.by_node ≡ true → contains node_names node ≡ true
    pub distinct : Distinct (keys s.by_node)
    pub counts : All (λ count. (1 ≤ count) × (count ≤ port_limit simulator)) s.counts
    pub limits : InLimits s.limits

  no_devices-IsPaired : IsPaired no_devices
  unfolding lookup has
  no_devices-IsPaired = record {
    owned = λ id d h. cc;
    owns = λ node d h. cc;
    known = λ node h. cc;
    distinct = tt;
    counts = tt;
    limits = tt;
  }

  module _ {s s' : DeviceState} (p : IsPaired s)
      (a : Accepted simulator node_names switch s s') where
    owned-Accepted :
        (id : String) (d : Device)
        → lookup id s'.by_device ≡ some d
        → (d.id ≡ id) × (lookup d.node s'.by_node ≡ some d)
    owned-Accepted id d =
        rw (a.by_device, a.by_node, lookup-insert, lookup-insert)
          λ h. ground (
            arith,
            p.owned id d,
            eq_iff a.device.id id,
            eq_iff a.device.node d.node,
            has_of_lookup a.device.node s.by_node {v = d},
            a.free,
          )

    owns-Accepted :
        (node : String) (d : Device)
        → lookup node s'.by_node ≡ some d
        → (d.node ≡ node) × (lookup d.id s'.by_device ≡ some d)
    owns-Accepted node d =
        rw (a.by_device, a.by_node, lookup-insert, lookup-insert)
          λ h. ground (
            arith,
            p.owns node d,
            eq_iff a.device.node node,
            eq_iff a.device.id d.id,
            has_of_lookup a.device.id s.by_device {v = d},
            a.fresh,
          )

    known-Accepted : (node : String) → has node s'.by_node ≡ true → contains node_names node ≡ true
    known-Accepted node =
        rw (a.by_node, has-insert)
          λ h. ground (arith, p.known node, eq_iff a.device.node node, a.known)

    IsPaired-Accepted : IsPaired s'
    IsPaired-Accepted = record {
      owned = owned-Accepted;
      owns = owns-Accepted;
      known = known-Accepted;
      distinct = rw a.by_node (Distinct-insert a.device.node a.device s.by_node p.distinct);
      counts = rw a.counts (set_add-All _ s.counts a.count p.counts (a.count_low, a.count_high));
      limits = a.limits p.limits;
    }

  read_devices-IsPaired_from :
      (index : ℕ) (raws : List Json) (s : DeviceState)
      → IsPaired s
      → Ensures IsPaired (read_devices simulator node_names switch index raws s)
  unfolding read_devices
  read_devices-IsPaired_from index [] s p = Ensures-ok s p
  read_devices-IsPaired_from index (raw ∷ rest) s p = Ensures-bind _ _ λ s' step.
      read_devices-IsPaired_from (suc index) rest s' (
        IsPaired-Accepted p
          ((read_device-Accepted simulator node_names switch index raw s).holds s' step))

  -- The loop pairs nodes and devices.
  pub read_devices-IsPaired :
      (raws : List Json)
      → Ensures IsPaired (read_devices simulator node_names switch 0 raws no_devices)
  read_devices-IsPaired raws = read_devices-IsPaired_from 0 raws no_devices no_devices-IsPaired
