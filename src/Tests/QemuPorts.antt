-- ===== src/Tests/QemuPorts.antt =====
-- ubsim_lab/qemu_ports.py at the default ports of three hosts.
use openurma_gem5_lab.Prelude.{has_repeat, ◌≡◌, refl, [], ◌∷◌, nat_eq, get_elem?, some}
use openurma_gem5_lab.Prelude.Int.{pos, int_eq, ◌-ℤ◌, ◌+ℤ◌}
use openurma_gem5_lab.Prelude.Result.{ok, err}
use openurma_gem5_lab.QemuPorts.{
  Ports, bad_count, default_bases, qemu_ports, port_map, port_range, nth_port, flat, in_range,
}
use openurma_gem5_lab.QemuPorts.Laws.{AreListeners, qemu_ports-AreListeners}

abbrev three_hosts : Ports
three_hosts = record {
  uart = pos 3560 ∷ pos 3570 ∷ pos 3580 ∷ [];
  ssh = pos 2220 ∷ pos 2221 ∷ pos 2222 ∷ [];
  oob = pos 4560 ∷ pos 4561 ∷ pos 4562 ∷ [];
}

three_hosts_ports : qemu_ports default_bases 3 ≡ ok three_hosts
unfolding qemu_ports port_map port_range nth_port flat in_range has_repeat ◌+ℤ◌ ◌-ℤ◌
three_hosts_ports = refl

nine_hosts : qemu_ports default_bases 9 ≡ err bad_count
unfolding qemu_ports
nine_hosts = refl

qemu_ports-AreListeners_example : AreListeners 3 three_hosts
qemu_ports-AreListeners_example =
    qemu_ports-AreListeners default_bases 3 three_hosts three_hosts_ports

ssh_of_one : get_elem? (flat three_hosts) 4 ≡ some (pos 2221)
unfolding flat
ssh_of_one = refl
