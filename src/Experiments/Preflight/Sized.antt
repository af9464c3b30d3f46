-- ===== src/Experiments/Preflight/Sized.antt =====
-- ubsim_lab/experiments.py: the modeled memory that `preflight` asks the memory guard for.
use openurma_gem5_lab.Prelude.{
  ℕ, max, ◌≤◌, ◌≡◌, refl, ◌∙◌, String, ◌<>◌, List, [], ◌∷◌, false, Bool-cases, inl, inr, ◌⊎◌, All,
  get_elem?, suc, arith, ◌==◌, string_eq, some, Option, none, ltb,
}
use openurma_gem5_lab.Prelude.Dict.{lookup}
use openurma_gem5_lab.Prelude.Text.{str}
use openurma_gem5_lab.Prelude.Result.{Result, ok, err, Ensures, Ensures-bind, Ensures-ok}
use openurma_gem5_lab.Topology.Nodes.{Simulator, gem5, qemu, simulator_eq, QemuNode}
use openurma_gem5_lab.Topology.Plan.{Plan, MachinePlan, gem5_machine, qemu_machine}
use openurma_gem5_lab.Config.{Values, Spec, ConfigError, missing, resolve_gem5}
use openurma_gem5_lab.Experiments.Reports.{Host, value_at, largest_memory}
use openurma_gem5_lab.Experiments.Preflight.{checkpoint_availability, modeled_memory}

unfoldable pub IsAtMost : ℕ → MachinePlan → Type 0
IsAtMost most (gem5_machine profile) = Unit {0}
IsAtMost most (qemu_machine node) = node.memory_mib ≤ most

-- A machine of the list has that memory.
pub record IsReached (most : ℕ) (machines : List MachinePlan) : Type 0 where
  pub place : ℕ
  pub node : QemuNode
  pub found : get_elem? machines place ≡ some (qemu_machine node)
  pub same : node.memory_mib ≡ most

-- The memory of the resolved settings, or that of the largest machine.
pub data IsModeled (host : Host) (spec : Spec) (plan : Plan) (size : String) : Type 0 where
  of_settings :
      (settings : Values)
      → plan.simulator ≡ gem5
      → resolve_gem5 host.platform.root host.defaults spec plan ≡ ok settings
      → lookup "memory_size" settings ≡ some size
      → IsModeled host spec plan size
  of_machines :
      (most : ℕ)
      → plan.simulator ≡ qemu
      → size ≡ str most <> "MiB"
      → All (IsAtMost most) plan.machines
      → (most ≡ 0) ⊎ IsReached most plan.machines
      → IsModeled host spec plan size

pub resolved_for :
    (host : Host) (spec : Spec) (plan : Plan)
    → Ensures
        (λ availability.
          plan.simulator ≡ gem5
          → resolve_gem5 host.platform.root host.defaults spec plan ≡ ok availability.resolved)
        (checkpoint_availability host spec plan)
unfolding checkpoint_availability
resolved_for host spec plan = elim (Bool-cases (plan.simulator == gem5)) [
  | inl is_gem5 ↦
      rw is_gem5
        (Ensures-bind _ _ λ resolved there. Ensures-bind _ _ λ image _. Ensures-ok _ (λ e. there))
  | inr is_other ↦ rw is_other (Ensures-ok _ (λ e. absurd (ground (arith, simulator_eq.test_iff))))
]

value_at_lem :
    (values : Values) (key value : String)
    → value_at values key ≡ ok value
    → lookup key values ≡ some value
unfolding value_at
value_at_lem values key value h = found (lookup key values) h
  where
    found :
        (o : Option String)
        → ◌≡◌ {A = Result ConfigError String}
            (elim o [ none ↦ err (missing key) | some v ↦ ok v ])
            (ok value)
        → o ≡ some value
    found none e = cc
    found (some v) e = cc

weaken :
    (low high : ℕ) (machines : List MachinePlan)
    → low ≤ high
    → All (IsAtMost low) machines
    → All (IsAtMost high) machines
unfolding IsAtMost
weaken low high [] h all = tt
weaken low high (gem5_machine profile ∷ rest) h (a, all) = (tt, weaken low high rest h all)
weaken low high (qemu_machine node ∷ rest) h (a, all) =
    (omega (arith, a), weaken low high rest h all)

largest_memory-le :
    (machines : List MachinePlan) → All (IsAtMost (largest_memory machines)) machines
unfolding largest_memory IsAtMost
largest_memory-le [] = tt
largest_memory-le (gem5_machine profile ∷ rest) = (tt, largest_memory-le rest)
largest_memory-le (qemu_machine node ∷ rest) = (
  omega arith,
  weaken (largest_memory rest) (max node.memory_mib (largest_memory rest)) rest (omega arith)
      (largest_memory-le rest),
)

later :
    (machine : MachinePlan) (rest : List MachinePlan) (low high : ℕ)
    → low ≡ high
    → IsReached low rest
    → IsReached high (machine ∷ rest)
later machine rest low high e r = record {
  place = suc r.place;
  node = r.node;
  found = r.found;
  same = r.same ∙ e;
}

largest_memory-IsReached :
    (machines : List MachinePlan)
    → (largest_memory machines ≡ 0) ⊎ IsReached (largest_memory machines) machines
unfolding largest_memory
largest_memory-IsReached [] = inl refl
largest_memory-IsReached (gem5_machine profile ∷ rest) = elim (largest_memory-IsReached rest) [
  | inl e ↦ inl e
  | inr r ↦ inr (later _ rest _ _ refl r)
]
largest_memory-IsReached (qemu_machine node ∷ rest) =
    elim (Bool-cases (ltb node.memory_mib (largest_memory rest))) [
      | inr first ↦ inr (record { place = 0; node = node; found = refl; same = ground arith })
      | inl other ↦ elim (largest_memory-IsReached rest) [
        | inl e ↦ absurd (ground (arith, e))
        | inr r ↦ inr (later _ rest _ _ (ground arith) r)
      ]
    ]

-- The memory that a start is checked with.
pub modeled_memory-IsModeled :
    (host : Host) (spec : Spec) (plan : Plan) (resolved : Values) (size : String)
    → (plan.simulator ≡ gem5
        → resolve_gem5 host.platform.root host.defaults spec plan ≡ ok resolved)
    → modeled_memory host plan resolved ≡ ok size
    → IsModeled host spec plan size
unfolding modeled_memory
modeled_memory-IsModeled host spec plan resolved size settings h =
    elim (Bool-cases (plan.simulator == gem5)) [
      | inl is_gem5 ↦
          let e : plan.simulator ≡ gem5 = (simulator_eq.test_iff plan.simulator gem5).0 is_gem5 in
          of_settings resolved e (settings e)
            (value_at_lem resolved "memory_size" size (rw is_gem5 at h))
      | inr is_other ↦
          of_machines (largest_memory plan.machines) (other plan.simulator is_other)
            (cc (rw is_other at h)) (largest_memory-le plan.machines)
            (largest_memory-IsReached plan.machines)
    ]
  where
    other : (s : Simulator) → (s == gem5) ≡ false → s ≡ qemu
    other gem5 e = absurd (cc)
    other qemu e = refl
