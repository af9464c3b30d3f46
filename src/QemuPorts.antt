-- ===== src/QemuPorts.antt =====
-- ubsim_lab/qemu_ports.py: the local listeners of a QEMU topology.
pub mod Laws
use openurma_gem5_lab.Prelude.{
  has_repeat, ℕ, zero, suc, ◌*◌, Bool, true, false, not, ◌&&◌, ◌||◌, List, [], ◌∷◌, ◌++◌, leb, ltb,
  contains, any, map, range_from, if◌then◌else◌, ◌==◌,
}
use openurma_gem5_lab.Prelude.Int.{ℤ, pos, negsuc, ◌+ℤ◌, ◌-ℤ◌, ltb_ℤ, int_eq, pos_part, neg_part}
use openurma_gem5_lab.Prelude.Result.{Result, ok, err}

-- The integers in the five environment variables, or their defaults.
pub record Bases : Type 0 where
  pub uart0 : ℤ
  pub uart1 : ℤ
  pub ssh0 : ℤ
  pub ssh1 : ℤ
  pub oob : ℤ

abbrev pub default_bases : Bases
default_bases = record {
  uart0 = pos 3560;
  uart1 = pos 3570;
  ssh0 = pos 2220;
  ssh1 = pos 2221;
  oob = pos 4560;
}

pub data PortError : Type 0 where
  bad_count bad_order bad_ports : PortError

pub record Ports : Type 0 where
  pub uart : List ℤ
  pub ssh : List ℤ
  pub oob : List ℤ

-- `base + i * stride`
unfoldable pub nth_port : ℤ → ℤ → ℕ → ℤ
nth_port base stride zero = base
nth_port base stride (suc i) = nth_port base stride i +ℤ stride

-- `[base + i * stride for i in range(count)]`
unfoldable pub port_range : ℤ → ℤ → ℕ → List ℤ
port_range base stride count = map (nth_port base stride) (range_from 0 count)

unfoldable pub in_range : ℤ → Bool
in_range (pos port) = leb 1024 port && leb port 65535
in_range (negsuc n) = false

unfoldable pub port_map : Bases → ℕ → Ports
port_map b count = record {
  uart = port_range b.uart0 (b.uart1 -ℤ b.uart0) count;
  ssh = port_range b.ssh0 (b.ssh1 -ℤ b.ssh0) count;
  oob = if ltb 2 count then port_range b.oob (pos 1) count else b.oob ∷ [];
}

unfoldable pub flat : Ports → List ℤ
flat p = p.uart ++ (p.ssh ++ p.oob)

unfoldable pub qemu_ports : Bases → ℕ → Result PortError Ports
qemu_ports b count =
    if not (leb 2 count && leb count 8)
    then err bad_count
    else if not (ltb_ℤ b.uart0 b.uart1) || not (ltb_ℤ b.ssh0 b.ssh1)
    then err bad_order
    else if any (λ port. not (in_range port)) (flat (port_map b count))
        || has_repeat (flat (port_map b count))
    then err bad_ports
    else ok (port_map b count)
