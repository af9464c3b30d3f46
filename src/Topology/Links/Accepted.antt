-- ===== src/Topology/Links/Accepted.antt =====
-- ubsim_lab/topology.py: what one accepted round of the loop over the switch links did.
use openurma_gem5_lab.Prelude.{
  ℕ, ◌≤◌, ◌<◌, String, ◌≡◌, false, List, [], ◌∷◌, ◌++◌, nat_eq, string_eq, pair_eq, contains, arith,
  some,
}
use openurma_gem5_lab.Prelude.Dict.{Dict, lookup}
use openurma_gem5_lab.Prelude.Result.{ok, Ensures, Ensures-bind, Ensures-ok, Ensures-raise_if}
use openurma_gem5_lab.Json.{Json}
use openurma_gem5_lab.Topology.Fields.Laws.{integer-ge}
use openurma_gem5_lab.Topology.Machine.{Switch}
use openurma_gem5_lab.Topology.Devices.{Device}
use openurma_gem5_lab.Topology.Links.{LinkState, device_of, required_port, read_link, set_default}

device_of-lookup :
    (id : String) (by_device : Dict String Device) {d : Device}
    → device_of id by_device ≡ ok d
    → lookup id by_device ≡ some d
unfolding device_of
device_of-lookup id by_device h = ground arith

module _ (node_names : List String) (port_count : ℕ) (by_device : Dict String Device)
    (switch : Switch) where
  -- From state `s` a link of a device to a free port led to `s'`.
  pub record Accepted (s s' : LinkState) : Type 0 where
    pub id : String
    pub device : Device
    pub device_port : ℕ
    pub rate : ℕ
    pub latency : ℕ
    pub known : lookup id by_device ≡ some device
    pub in_range : device_port < port_count
    pub free :
        contains s.seen_switch_ports
          (required_port node_names port_count by_device switch device device_port)
        ≡ false
    pub rate_low : 1 ≤ rate
    pub rate_high : rate ≤ 100000
    pub latency_low : 1 ≤ latency
    pub latency_high : latency ≤ 1000000000
    pub result : s' ≡ record {
      seen_device_ports = s.seen_device_ports ++ (id, device_port) ∷ [];
      seen_switch_ports =
          s.seen_switch_ports
          ++ required_port node_names port_count by_device switch device device_port ∷ [];
      link_by_device = set_default id (rate, latency) s.link_by_device;
    }

  pub read_link-Accepted :
      (index : ℕ) (raw : Json) (s : LinkState)
      → Ensures (Accepted s) (read_link node_names port_count by_device switch index raw s)
  unfolding read_link
  read_link-Accepted index raw s = Ensures-bind _ _ λ link _. Ensures-bind _ _ λ id _.
      Ensures-bind _ _ λ raw_device_port _. Ensures-bind _ _ λ device_port _.
        Ensures-bind _ _ λ raw_switch_port _. Ensures-bind _ _ λ switch_port _.
          Ensures-raise_if _ _ _ λ in_range. Ensures-bind _ _ λ device known.
            Ensures-raise_if _ _ _ λ required. Ensures-raise_if _ _ _ λ free.
              Ensures-bind _ _ λ raw_rate _. Ensures-bind _ _ λ rate rate_low.
                Ensures-bind _ _ λ raw_latency _. Ensures-bind _ _ λ latency latency_low.
                  Ensures-raise_if _ _ _ λ high. Ensures-raise_if _ _ _ λ same.
                    Ensures-ok _ (record {
                      id = id;
                      device = device;
                      device_port = device_port;
                      rate = rate;
                      latency = latency;
                      known = device_of-lookup id by_device known;
                      in_range = ground arith;
                      free = ground arith;
                      rate_low = integer-ge raw_rate _ 1 rate_low;
                      rate_high = ground arith;
                      latency_low = integer-ge raw_latency _ 1 latency_low;
                      latency_high = ground arith;
                      result = ground arith;
                    })
