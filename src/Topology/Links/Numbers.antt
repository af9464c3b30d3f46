-- ===== src/Topology/Links/Numbers.antt =====
-- ubsim_lab/topology.py: the numbers of the switch's ports, and the recorded links.
use openurma_gem5_lab.Prelude.{
  ℕ, ◌+◌, ◌*◌, ◌≤◌, ◌<◌, String, ◌≡◌, refl, true, ◌==◌, nat_eq, string_eq, eq_iff, arith,
  if◌then◌else◌, some, Bool-cases, inl, inr, ◌⊎◌,
}
use openurma_gem5_lab.Prelude.Dict.{Dict, lookup, has, lookup-insert, has-insert}
use openurma_gem5_lab.Topology.Links.{set_default}

-- A port of a device below `count` devices of `width` ports each has a number below their product.
pub port_below : (i q count width : ℕ) → i < count → q < width → i * width + q < count * width
port_below i q count width hi hq = grind arith

-- The number of a port determines its device.
pub port_owner : (i q j width : ℕ) → q < width → i * width + q ≡ j * width → i ≡ j
port_owner i q j width hq e = grind arith

abbrev pub InRates : ℕ × ℕ → Type 0
InRates entry = (1 ≤ entry.0) × (entry.0 ≤ 100000) × (1 ≤ entry.1) × (entry.1 ≤ 1000000000)

pub lookup-set_default :
    (j id : String) (entry : ℕ × ℕ) (d : Dict String (ℕ × ℕ)) (e : ℕ × ℕ)
    → lookup j (set_default id entry d) ≡ some e
    → (e ≡ entry) ⊎ (lookup j d ≡ some e)
unfolding set_default
lookup-set_default j id entry d e = elim (Bool-cases (has id d)) [
  | inl old ↦ rw old (λ h. inr h)
  | inr new ↦ rw (new, lookup-insert) (λ h. ground arith)
]

pub has-set_default :
    (j id : String) (entry : ℕ × ℕ) (d : Dict String (ℕ × ℕ))
    → has j (set_default id entry d) ≡ (if id == j then true else has j d)
unfolding set_default
has-set_default j id entry d = elim (Bool-cases (has id d)) [
  | inl old ↦ rw old (ground (arith, eq_iff id j))
  | inr new ↦ rw (new, has-insert) refl
]
