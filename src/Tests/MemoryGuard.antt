-- ===== src/Tests/MemoryGuard.antt =====
-- tools/host_memory_guard.py at small inputs.
use openurma_gem5_lab.Prelude.{
  ℕ, ◌≡◌, refl, [], ◌∷◌, nat_eq, ◌↔◌, List, true, ◌*◌, ◌≢◌, all, false, none, some, ◌/◌,
}
use openurma_gem5_lab.Prelude.Text.{codes}
use openurma_gem5_lab.MemoryGuard.Capacity.{gib, scale_of, find_unit, same, is_digit}
use openurma_gem5_lab.MemoryGuard.Preflight.{
  reserve_bytes, start, qemu_start, check, check-leaves, IsLeft,
}
use openurma_gem5_lab.MemoryGuard.Monitor.{
  Sample, reading, monitor, two_low, is_stopped, fresh_guard, monitor-stops_iff,
}
use openurma_gem5_lab.Prelude.{max}

abbrev twelve : List ℕ
twelve = codes "12"

gib_scale : scale_of (codes "GiB") ≡ some gib
unfolding scale_of find_unit same
gib_scale = refl

twelve_digits : all is_digit twelve ≡ true
unfolding is_digit
twelve_digits = refl

twelve_some : twelve ≢ []
twelve_some e = cc

abbrev host : ℕ
host = 16 * gib

start_passes : check start host (8 * gib) 2 none ≡ some 0
unfolding check reserve_bytes
start_passes = refl

qemu_start_passes : check qemu_start host (8 * gib) 2 (some gib) ≡ some 0
unfolding check reserve_bytes
qemu_start_passes = refl

check-leaves_example : IsLeft host (8 * gib) 2 (max (2 * gib) (host / 5)) qemu_start (some gib)
check-leaves_example = check-leaves qemu_start host (8 * gib) 2 (some gib) qemu_start_passes

abbrev rounds : List Sample
rounds = reading host gib ∷ reading host gib ∷ []

monitor-stops_iff_example :
    (is_stopped (monitor fresh_guard rounds).0 ≡ true) ↔ (two_low false rounds ≡ true)
monitor-stops_iff_example = monitor-stops_iff rounds
