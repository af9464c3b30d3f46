-- ===== src/Topology/Devices/Matched.antt =====
-- ubsim_lab/topology.py: what the checks behind the loop over the devices establish.
use openurma_gem5_lab.Prelude.{ℕ, ◌≤◌, ◌≡◌, refl, List, [], ◌∷◌, nat_eq, length, arith}
use openurma_gem5_lab.Prelude.Result.{
  Ensures, Ensures-bind, Ensures-ok, Ensures-err, Ensures-raise_if,
}
use openurma_gem5_lab.Topology.Devices.{DeviceState, check_devices, only_count}

only_count-single : (cs : List ℕ) → Ensures (λ count. cs ≡ count ∷ []) (only_count cs)
unfolding only_count
only_count-single [] = Ensures-err _
only_count-single (c ∷ []) = Ensures-ok c refl
only_count-single (c ∷ c' ∷ rest) = Ensures-err _

pub record IsMatched (nodes devices : ℕ) (s : DeviceState) (count : ℕ) : Type 0 where
  pub paired : length s.by_node ≡ nodes
  pub as_many : devices ≡ nodes
  pub same_count : s.counts ≡ count ∷ []
  pub same_limit : length s.limits ≤ 1

pub check_devices-IsMatched :
    (nodes devices : ℕ) (s : DeviceState)
    → Ensures (IsMatched nodes devices s) (check_devices nodes devices s)
unfolding check_devices
check_devices-IsMatched nodes devices s = Ensures-raise_if _ _ _ λ paired.
    Ensures-bind _ _ λ count same. Ensures-raise_if _ _ _ λ limits. Ensures-ok count (record {
      paired = ground arith;
      as_many = ground arith;
      same_count = (only_count-single s.counts).holds count same;
      same_limit = ground arith;
    })
