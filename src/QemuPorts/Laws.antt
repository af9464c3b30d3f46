-- ===== src/QemuPorts/Laws.antt =====
-- ubsim_lab/qemu_ports.py: the listeners of distinct hosts and purposes do not collide.
use openurma_gem5_lab.Prelude.{
  has_repeat, Distinct-has_repeat, ℕ, zero, suc, ◌≤◌, ◌≡◌, refl, ap, true, false, not, List, [],
  ◌∷◌, ltb, contains, any, all, arith, range_from, if◌then◌else◌, length, length-map,
  length-range_from, get_elem?, some, Distinct, ◌∙◌,
}
use openurma_gem5_lab.Prelude.Int.{ℤ, pos, ◌-ℤ◌, int_eq, int_beq_iff, ◌+ℤ◌}
use openurma_gem5_lab.Prelude.Result.{ok}
use openurma_gem5_lab.QemuPorts.{
  default_bases, Bases, Ports, port_range, nth_port, in_range, port_map, flat, qemu_ports,
}

contains_of_get_elem? :
    (xs : List ℤ) (i : ℕ) (x : ℤ) → get_elem? xs i ≡ some x → contains xs x ≡ true
contains_of_get_elem? [] i x h = cc
contains_of_get_elem? (y ∷ xs) zero x h = ground (arith, int_beq_iff y x)
contains_of_get_elem? (y ∷ xs) (suc i) x h = ground (arith, contains_of_get_elem? xs i x h)

-- Members at two places of a list without repetition differ.
get_elem?-Distinct :
    (xs : List ℤ) (i j : ℕ) (x : ℤ)
    → Distinct xs
    → get_elem? xs i ≡ some x
    → get_elem? xs j ≡ some x
    → i ≡ j
get_elem?-Distinct [] i j x d hi hj = cc
get_elem?-Distinct (y ∷ xs) zero zero x d hi hj = refl
get_elem?-Distinct (y ∷ xs) zero (suc j) x (fresh, d) hi hj =
    ground (arith, contains_of_get_elem? xs j x hj)
get_elem?-Distinct (y ∷ xs) (suc i) zero x (fresh, d) hi hj =
    ground (arith, contains_of_get_elem? xs i x hi)
get_elem?-Distinct (y ∷ xs) (suc i) (suc j) x (fresh, d) hi hj =
    ap suc (get_elem?-Distinct xs i j x d hi hj)

length-port_range : (base stride : ℤ) (count : ℕ) → length (port_range base stride count) ≡ count
unfolding port_range
length-port_range base stride count =
    length-map (nth_port base stride) (range_from 0 count) ∙ length-range_from 0 count

all-in_range :
    (ports : List ℤ) → any (λ port. not (in_range port)) ports ≡ false → all in_range ports ≡ true
all-in_range [] h = refl
all-in_range (port ∷ rest) h = ground (arith, all-in_range rest)

-- The listeners of two to eight hosts.
pub record AreListeners (count : ℕ) (p : Ports) : Type 0 where
  pub at_least : 2 ≤ count
  pub at_most : count ≤ 8
  pub uart_each : length p.uart ≡ count
  pub ssh_each : length p.ssh ≡ count
  pub oob_each : length p.oob ≡ (if ltb 2 count then count else 1)
  pub distinct : Distinct (flat p)
  pub unprivileged : all in_range (flat p) ≡ true

length-oob :
    (b : Bases) (count : ℕ) → length (port_map b count).oob ≡ (if ltb 2 count then count else 1)
unfolding port_map
length-oob b count = ground (arith, length-port_range b.oob (pos 1) count)

qemu_ports_checked :
    (b : Bases) (count : ℕ) (p : Ports)
    → qemu_ports b count ≡ ok p
    → (2 ≤ count)
      × (count ≤ 8)
      × (p ≡ port_map b count)
      × (any (λ port. not (in_range port)) (flat (port_map b count)) ≡ false)
      × (has_repeat (flat (port_map b count)) ≡ false)
unfolding qemu_ports
qemu_ports_checked b count p h = ground arith

-- If `qemu_ports` returns, there are 2 to 8 hosts; each has a UART and an SSH port, and each its own
-- out-of-band port if there are more than two; no two listeners have one port; and every port lies
-- within 1024 to 65535.
pub qemu_ports-AreListeners :
    (b : Bases) (count : ℕ) (p : Ports) → qemu_ports b count ≡ ok p → AreListeners count p
unfolding port_map
qemu_ports-AreListeners b count p h =
    let (low, high, same, good, apart) = qemu_ports_checked b count p h in
    rw same (record {
      at_least = low;
      at_most = high;
      uart_each = length-port_range b.uart0 (b.uart1 -ℤ b.uart0) count;
      ssh_each = length-port_range b.ssh0 (b.ssh1 -ℤ b.ssh0) count;
      oob_each = length-oob b count;
      distinct = Distinct-has_repeat (flat (port_map b count)) apart;
      unprivileged = all-in_range (flat (port_map b count)) good;
    })

-- If `qemu_ports` returns and two of the listeners, in the order UARTs, SSH, out-of-band, have one
-- port, they are the same listener.
pub qemu_ports-injective :
    (b : Bases) (count : ℕ) (p : Ports) (i j : ℕ) (a : ℤ)
    → qemu_ports b count ≡ ok p
    → get_elem? (flat p) i ≡ some a
    → get_elem? (flat p) j ≡ some a
    → i ≡ j
qemu_ports-injective b count p i j a h =
    get_elem?-Distinct (flat p) i j a (qemu_ports-AreListeners b count p h).distinct

-- With no environment variable set, `qemu_ports` returns for 2 to 8 hosts, with the listeners that the
-- defaults give.
pub qemu_ports-default_bases :
    (count : ℕ)
    → 2 ≤ count
    → count ≤ 8
    → qemu_ports default_bases count ≡ ok (port_map default_bases count)
unfolding qemu_ports port_map port_range nth_port flat in_range has_repeat ◌+ℤ◌ ◌-ℤ◌
qemu_ports-default_bases zero low high = absurd (omega (arith, low))
qemu_ports-default_bases (suc zero) low high = absurd (omega (arith, low))
qemu_ports-default_bases (suc (suc zero)) low high = refl
qemu_ports-default_bases (suc (suc (suc zero))) low high = refl
qemu_ports-default_bases (suc (suc (suc (suc zero)))) low high = refl
qemu_ports-default_bases (suc (suc (suc (suc (suc zero))))) low high = refl
qemu_ports-default_bases (suc (suc (suc (suc (suc (suc zero)))))) low high = refl
qemu_ports-default_bases (suc (suc (suc (suc (suc (suc (suc zero))))))) low high = refl
qemu_ports-default_bases (suc (suc (suc (suc (suc (suc (suc (suc zero)))))))) low high = refl
qemu_ports-default_bases (suc (suc (suc (suc (suc (suc (suc (suc (suc n))))))))) low high =
    absurd (omega (arith, high))
