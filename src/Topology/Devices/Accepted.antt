-- ===== src/Topology/Devices/Accepted.antt =====
-- ubsim_lab/topology.py: what one accepted round of the loop over the devices did.
use openurma_gem5_lab.Prelude.{
  ℕ, ◌≤◌, String, ◌≡◌, refl, true, false, List, [], ◌∷◌, nat_eq, string_eq, contains, set_add,
  arith, Option, All, All-append, Bool-cases, inl, inr, ap,
}
use openurma_gem5_lab.Prelude.Dict.{Dict, has, insert}
use openurma_gem5_lab.Prelude.Result.{ok, Ensures, Ensures-bind, Ensures-ok, Ensures-raise_if}
use openurma_gem5_lab.Json.{Json, null, bool, num, float, arr, obj, str as text}
use openurma_gem5_lab.Topology.Fields.Laws.{integer-ge}
use openurma_gem5_lab.Topology.Nodes.{Simulator}
use openurma_gem5_lab.Topology.Machine.{Switch}
use openurma_gem5_lab.Topology.Devices.{
  Device, DeviceState, free_node, read_limit, read_device, port_limit,
}

-- A free node is one of the nodes, and has no device yet.
free_node-free :
    (raw : Json) (id : String) (names : List String) (by_node : Dict String Device) {node : String}
    → free_node raw id names by_node ≡ ok node
    → (contains names node ≡ true) × (has node by_node ≡ false)
unfolding free_node
free_node-free (text s) id names by_node h = ground arith
free_node-free null id names by_node h = cc
free_node-free (bool b) id names by_node h = cc
free_node-free (num b) id names by_node h = cc
free_node-free (float b) id names by_node h = cc
free_node-free (arr b) id names by_node h = cc
free_node-free (obj b) id names by_node h = cc

abbrev pub InLimits : List ℕ → Type 0
InLimits = All (λ limit. (2 ≤ limit) × (limit ≤ 65535))

pub set_add-All {ℓ} : (P : ℕ → Type ℓ) (xs : List ℕ) (a : ℕ) → All P xs → P a → All P (set_add xs a)
set_add-All P xs a h p = elim (Bool-cases (contains xs a)) [
  | inl old ↦ rw old h
  | inr new ↦ rw new (All-append P xs (a ∷ []) h (p, tt))
]

-- `read_limit` leaves the dicts and the port counts alone, and adds a limit in range at most.
record IsLimited (s s' : DeviceState) : Type 0 where
  by_node : s'.by_node ≡ s.by_node
  by_device : s'.by_device ≡ s.by_device
  counts : s'.counts ≡ s.counts
  limits : InLimits s.limits → InLimits s'.limits

read_limit-IsLimited :
    (device : Dict String Json) (id : String) (s : DeviceState)
    → Ensures (IsLimited s) (read_limit device id s)
unfolding read_limit
read_limit-IsLimited device id s = elim (Bool-cases (has "max_jettys" device)) [
  | inl given ↦ rw given (
      Ensures-bind _ _ λ raw _. Ensures-bind _ _ λ limit low. Ensures-raise_if _ _ _ λ high.
        Ensures-ok _ (record {
          by_node = refl;
          by_device = refl;
          counts = refl;
          limits = λ h. set_add-All _ s.limits limit h (integer-ge raw _ 2 low, ground arith);
        }))
  | inr missing ↦
      rw missing
        (Ensures-ok _ (record { by_node = refl; by_device = refl; counts = refl; limits = λ h. h }))
]

module _ (simulator : Simulator) (node_names : List String) (switch : Option Switch) where
  -- From state `s` a device of a free node led to `s'`.
  pub record Accepted (s s' : DeviceState) : Type 0 where
    pub device : Device
    pub count : ℕ
    pub fresh : has device.id s.by_device ≡ false
    pub known : contains node_names device.node ≡ true
    pub free : has device.node s.by_node ≡ false
    pub count_low : 1 ≤ count
    pub count_high : count ≤ port_limit simulator
    pub by_node : s'.by_node ≡ insert device.node device s.by_node
    pub by_device : s'.by_device ≡ insert device.id device s.by_device
    pub counts : s'.counts ≡ set_add s.counts count
    pub limits : InLimits s.limits → InLimits s'.limits

  pub read_device-Accepted :
      (index : ℕ) (raw : Json) (s : DeviceState)
      → Ensures (Accepted s) (read_device simulator node_names switch index raw s)
  unfolding read_device
  read_device-Accepted index raw s = Ensures-bind _ _ λ device _. Ensures-bind _ _ λ raw_id _.
      Ensures-bind _ _ λ id named. Ensures-raise_if _ _ _ λ fresh. Ensures-bind _ _ λ raw_node _.
        Ensures-bind _ _ λ node free. Ensures-bind _ _ λ kind _. Ensures-raise_if _ _ _ λ _.
          Ensures-bind _ _ λ raw_eid _. Ensures-bind _ _ λ eid _. Ensures-raise_if _ _ _ λ _.
            Ensures-bind _ _ λ raw_ports _. Ensures-bind _ _ λ count low.
              Ensures-raise_if _ _ _ λ high. Ensures-bind _ _ λ s' limited.
                let (known, unused) = free_node-free raw_node id node_names s.by_node free in
                let l = (read_limit-IsLimited device id _).holds s' limited in
                Ensures-ok _ (record {
                  device = record { id = id; node = node };
                  count = count;
                  fresh = ground arith;
                  known = known;
                  free = unused;
                  count_low = integer-ge raw_ports _ 1 low;
                  count_high = ground arith;
                  by_node = ap (insert node _) l.by_node;
                  by_device = ap (insert id _) l.by_device;
                  counts = l.counts;
                  limits = l.limits;
                })
