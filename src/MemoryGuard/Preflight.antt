-- ===== src/MemoryGuard/Preflight.antt =====
-- tools/host_memory_guard.py: `reserve_bytes` and `check`.
use openurma_gem5_lab.Prelude.{
  ℕ, ◌+◌, ◌*◌, ◌/◌, ◌≤◌, ◌≡◌, max, inl, inr, Bool-cases, ◌⊎◌, Bool, true, false, ◌&&◌, Option, some,
  none, ltb, leb, if◌then◌else◌, arith,
}
use openurma_gem5_lab.MemoryGuard.Capacity.{gib}
use openurma_gem5_lab.Prelude.{◌⊎◌}
use openurma_gem5_lab.Prelude.{Bool-cases}

pub data Phase : Type 0 where
  start qemu_start checkpoint : Phase

unfoldable pub reserve_bytes : ℕ → ℕ
reserve_bytes total = max (2 * gib) (total / 5)

abbrev base_headroom : ℕ → ℕ
base_headroom nodes = max (2 * gib) (nodes * 5 * gib / 4)

-- `launch_headroom`; `capacity` is `capacity_bytes(mem_size)`, `none` its `ValueError`.
unfoldable pub headroom : Phase → ℕ → Option ℕ → Option ℕ
headroom qemu_start nodes none = none
headroom qemu_start nodes (some capacity) =
    some (max (base_headroom nodes) (nodes * capacity + gib))
headroom _ nodes capacity = some (base_headroom nodes)

-- The last test: whether the modeled memories of a checkpoint exceed the host's budget.
over_budget : Phase → ℕ → ℕ → Option ℕ → Option Bool
over_budget checkpoint total nodes none = if leb 3 nodes then none else some false
over_budget checkpoint total nodes (some capacity) =
    some (leb 3 nodes && ltb (4 * total) (nodes * capacity))
over_budget _ total nodes capacity = some false

verdict : Option Bool → Option ℕ
verdict none = none
verdict (some true) = some 2
verdict (some false) = some 0

compare_memory : Phase → ℕ → ℕ → ℕ → Option ℕ → Option ℕ → Option ℕ
unfolding over_budget verdict
compare_memory phase total available nodes capacity none = none
compare_memory phase total available nodes capacity (some needed) =
    if ltb available (reserve_bytes total + needed)
    then some 2
    else verdict (over_budget phase total nodes capacity)

-- The exit status; `none` is a `ValueError`, which `main` turns into status 2.
unfoldable pub check : Phase → ℕ → ℕ → ℕ → Option ℕ → Option ℕ
unfolding compare_memory headroom
check phase total available nodes capacity =
    compare_memory phase total available nodes capacity (headroom phase nodes capacity)

-- What is left to the nodes: 1.25 GiB for each and 2 GiB together, for a start of QEMU also the
-- modeled memories and 1 GiB; for a checkpoint of three nodes or more, the modeled memories take at
-- most four times the host's memory.
pub data IsLeft (total available nodes reserve : ℕ) : Phase → Option ℕ → Type 0 where
  left_start :
      {capacity : Option ℕ}
      → reserve + nodes * 5 * gib / 4 ≤ available
      → reserve + 2 * gib ≤ available
      → IsLeft total available nodes reserve start capacity
  left_qemu :
      {capacity : ℕ}
      → reserve + nodes * 5 * gib / 4 ≤ available
      → reserve + 2 * gib ≤ available
      → reserve + nodes * capacity + gib ≤ available
      → IsLeft total available nodes reserve qemu_start (some capacity)
  left_unmodeled :
      reserve + nodes * 5 * gib / 4 ≤ available
      → reserve + 2 * gib ≤ available
      → nodes ≤ 2
      → IsLeft total available nodes reserve checkpoint none
  left_checkpoint :
      {capacity : ℕ}
      → reserve + nodes * 5 * gib / 4 ≤ available
      → reserve + 2 * gib ≤ available
      → (nodes ≤ 2) ⊎ (nodes * capacity ≤ 4 * total)
      → IsLeft total available nodes reserve checkpoint (some capacity)

fits :
    (total available nodes needed : ℕ)
    → ltb available (reserve_bytes total + needed) ≡ false
    → max (2 * gib) (total / 5) + needed ≤ available
unfolding reserve_bytes
fits total available nodes needed h = ground arith

not_needed :
    (total available nodes capacity : ℕ)
    → over_budget checkpoint total nodes (some capacity) ≡ some false
    → (nodes ≤ 2) ⊎ (nodes * capacity ≤ 4 * total)
unfolding over_budget
not_needed total available nodes capacity h = elim (Bool-cases (leb 3 nodes)) [
  | inl many ↦ inr (ground arith)
  | inr few ↦ inl (ground arith)
]

-- If the check passes, the memory that is available covers the reserve, which is a fifth of the
-- host's memory and at least 2 GiB, together with 1.25 GiB for each node and with 2 GiB; for a start
-- of QEMU also the reserve with the modeled memories of all nodes and 1 GiB; and for a checkpoint of
-- three nodes or more the modeled memories are known and at most four times the host's memory.
pub check-leaves :
    (phase : Phase) (total available nodes : ℕ) (capacity : Option ℕ)
    → check phase total available nodes capacity ≡ some 0
    → IsLeft total available nodes (max (2 * gib) (total / 5)) phase capacity
unfolding check over_budget
check-leaves start total available nodes capacity h =
    let enough = fits total available nodes (base_headroom nodes) (ground arith) in
    left_start (omega (arith, enough)) (omega (arith, enough))
check-leaves checkpoint total available nodes none h =
    let enough = fits total available nodes (base_headroom nodes) (ground arith) in
    left_unmodeled (omega (arith, enough)) (omega (arith, enough)) (ground arith)
check-leaves checkpoint total available nodes (some capacity) h =
    let enough = fits total available nodes (base_headroom nodes) (ground arith) in
    left_checkpoint (omega (arith, enough)) (omega (arith, enough))
      (not_needed total available nodes capacity (ground arith))
check-leaves qemu_start total available nodes none h = cc
check-leaves qemu_start total available nodes (some capacity) h =
    let enough =
      fits total available nodes (max (base_headroom nodes) (nodes * capacity + gib))
        (ground arith) in
    left_qemu (omega (arith, enough)) (omega (arith, enough)) (omega (arith, enough))

mul_mono : (a b c : ℕ) → a ≤ b → a * c ≤ b * c
mul_mono a b c h = grind arith

-- If the check passes, it passes with more memory available and with fewer nodes, all else equal.
pub check-monotone :
    (phase : Phase) (total available available' nodes nodes' : ℕ) (capacity : Option ℕ)
    → check phase total available nodes capacity ≡ some 0
    → available ≤ available'
    → nodes' ≤ nodes
    → check phase total available' nodes' capacity ≡ some 0
unfolding check
check-monotone start total available available' nodes nodes' capacity h more fewer = ground arith
check-monotone checkpoint total available available' nodes nodes' none h more fewer = ground arith
check-monotone checkpoint total available available' nodes nodes' (some capacity) h more fewer =
    ground (arith, mul_mono nodes' nodes capacity fewer)
check-monotone qemu_start total available available' nodes nodes' none h more fewer = cc
check-monotone qemu_start total available available' nodes nodes' (some capacity) h more fewer =
    ground (arith, mul_mono nodes' nodes capacity fewer)
