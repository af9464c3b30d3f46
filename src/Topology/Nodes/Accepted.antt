-- ===== src/Topology/Nodes/Accepted.antt =====
-- ubsim_lab/topology.py: what the loop over the nodes leaves.
use openurma_gem5_lab.Prelude.{
  ◌==◌, ◌&&◌, not, leb, nat_eq, ℕ, suc, ◌+◌, ◌≤◌, String, ◌≡◌, refl, true, false, List, [], ◌∷◌,
  ◌++◌, string_eq, contains, set_add, arith, length, length-append, All, All-append, Distinct,
  Distinct-snoc, Bool-cases, inl, inr, sym, ◌∙◌,
}
use openurma_gem5_lab.Prelude.Dict.{Dict}
use openurma_gem5_lab.Prelude.Result.{
  Ensures, Ensures-bind, Ensures-ok, Ensures-raise_if, Ensures-err,
}
use openurma_gem5_lab.Json.{Json}
use openurma_gem5_lab.Topology.Fields.{is_name}
use openurma_gem5_lab.Topology.Fields.Laws.{integer-ge, name-is_name, choice-contains}
use openurma_gem5_lab.Topology.Nodes.{
  Simulator, gem5, qemu, simulator_eq, QemuNode, NodeState, no_nodes, qemu_cpus, gem5_profiles,
  read_machine_of, read_node, read_nodes, Header, check_nodes, only_simulator,
}

abbrev pub InBounds : QemuNode → Type 0
InBounds node =
    (contains qemu_cpus node.cpu ≡ true)
    × (1 ≤ node.cores)
    × (node.cores ≤ 16)
    × (512 ≤ node.memory_mib)
    × (node.memory_mib ≤ 8192)

-- Names without repetition, and a checked machine for each.
pub record IsListed (s : NodeState) : Type 0 where
  pub named : All (λ id. is_name id ≡ true) s.node_names
  pub distinct : Distinct s.node_names
  pub profiled : All (λ profile. contains gem5_profiles profile ≡ true) s.node_profiles
  pub bounded : All InBounds s.qemu_nodes
  pub counted : length s.node_profiles + length s.qemu_nodes ≡ length s.node_names
  pub no_gem5 : contains s.simulators gem5 ≡ false → s.node_profiles ≡ []
  pub no_qemu : contains s.simulators qemu ≡ false → s.qemu_nodes ≡ []

no_nodes-IsListed : IsListed no_nodes
no_nodes-IsListed = record {
  named = tt;
  distinct = tt;
  profiled = tt;
  bounded = tt;
  counted = omega arith;
  no_gem5 = λ _. refl;
  no_qemu = λ _. refl;
}

contains-set_add :
    (ss : List Simulator) (a b : Simulator)
    → contains (set_add ss a) b ≡ false
    → contains ss b ≡ false
contains-set_add ss a b h = elim (Bool-cases (contains ss a)) [
  | inl old ↦ rw old at h
  | inr new ↦ snoc ss (rw new at h)
]
  where
    snoc : (ss : List Simulator) → contains (ss ++ a ∷ []) b ≡ false → contains ss b ≡ false
    snoc [] h = refl
    snoc (s ∷ rest) h = ground (arith, snoc rest)

added : (ss : List Simulator) (a : Simulator) → contains (set_add ss a) a ≡ true
added ss a = elim (Bool-cases (contains ss a)) [
  | inl old ↦ rw (old, old)
  | inr new ↦ rw new (last ss)
]
  where
    last : (ss : List Simulator) → contains (ss ++ a ∷ []) a ≡ true
    last [] = elim a as (λ a. contains (a ∷ []) a ≡ true) [ gem5 ↦ refl | qemu ↦ refl ]
    last (s ∷ rest) = ground (arith, last rest)

true-ne-false : true ≡ false → ⊥
true-ne-false h = cc

-- The node's name and simulator are listed before its machine is read.
abbrev begun : NodeState → String → Simulator → NodeState
begun s id simulator = record s {
  node_names = s.node_names ++ id ∷ [];
  simulators = set_add s.simulators simulator;
}

module _ (s : NodeState) (id : String) (v : IsListed s) (good : is_name id ≡ true)
    (fresh : contains s.node_names id ≡ false) where
  -- After the machine: one more name.
  IsAdded : NodeState → Type 0
  IsAdded s' = IsListed s' × (s'.node_names ≡ s.node_names ++ id ∷ [])

  read_machine_of-IsAdded :
      (simulator : Simulator) (node : Dict String Json)
      → Ensures IsAdded (read_machine_of simulator node id (begun s id simulator))
  unfolding read_machine_of IsAdded
  read_machine_of-IsAdded gem5 node = Ensures-raise_if _ _ _ λ _. Ensures-bind _ _ λ profile chosen.
      Ensures-ok _ (
        record {
          named = All-append _ s.node_names (id ∷ []) v.named (good, tt);
          distinct = Distinct-snoc s.node_names id fresh v.distinct;
          profiled =
              All-append _ s.node_profiles (profile ∷ []) v.profiled
                (choice-contains _ gem5_profiles _ chosen, tt);
          bounded = v.bounded;
          counted = omega (
            arith,
            v.counted,
            length-append s.node_profiles (profile ∷ []),
            length-append s.node_names (id ∷ []),
          );
          no_gem5 = λ h. absurd (true-ne-false (sym (added s.simulators gem5) ∙ h));
          no_qemu = λ h. v.no_qemu (contains-set_add s.simulators gem5 qemu h);
        },
        refl,
      )
  read_machine_of-IsAdded qemu node = Ensures-raise_if _ _ _ λ _. Ensures-bind _ _ λ cpu chosen.
      Ensures-bind _ _ λ cores low. Ensures-bind _ _ λ memory_mib low'.
        Ensures-raise_if _ _ _ λ high. Ensures-ok _ (
          record {
            named = All-append _ s.node_names (id ∷ []) v.named (good, tt);
            distinct = Distinct-snoc s.node_names id fresh v.distinct;
            profiled = v.profiled;
            bounded = All-append _ s.qemu_nodes (_ ∷ []) v.bounded (
              (
                choice-contains _ qemu_cpus _ chosen,
                integer-ge _ _ 1 low,
                ground arith,
                integer-ge _ _ 512 low',
                ground arith,
              ),
              tt,
            );
            counted = omega (
              arith,
              v.counted,
              length-append s.qemu_nodes
                  (record { cpu = cpu; cores = cores; memory_mib = memory_mib } ∷ []),
              length-append s.node_names (id ∷ []),
            );
            no_gem5 = λ h. v.no_gem5 (contains-set_add s.simulators qemu gem5 h);
            no_qemu = λ h. absurd (true-ne-false (sym (added s.simulators qemu) ∙ h));
          },
          refl,
        )

-- One round keeps the list in order and adds one name.
read_node-IsListed :
    (index : ℕ) (raw : Json) (s : NodeState)
    → IsListed s
    → Ensures
        (λ s'. IsListed s' × (length s'.node_names ≡ suc (length s.node_names)))
        (read_node index raw s)
unfolding read_node IsAdded
read_node-IsListed index raw s v = Ensures-bind _ _ λ node _. Ensures-bind _ _ λ raw_id _.
    Ensures-bind _ _ λ id good. Ensures-raise_if _ _ _ λ fresh. Ensures-bind _ _ λ raw_simulator _.
      Ensures-bind _ _ λ simulator _. record {
        holds = λ s' h.
            let (listed, names) =
              (read_machine_of-IsAdded s id v (name-is_name raw_id _ good) fresh simulator
                  node).holds
                s' h in
            (listed, rw names (omega (arith, length-append s.node_names (id ∷ []))));
      }

read_nodes-IsListed_from :
    (index : ℕ) (raws : List Json) (s : NodeState)
    → IsListed s
    → Ensures
        (λ s'. IsListed s' × (length s'.node_names ≡ length s.node_names + length raws))
        (read_nodes index raws s)
unfolding read_nodes
read_nodes-IsListed_from index [] s v = Ensures-ok s (v, omega arith)
read_nodes-IsListed_from index (raw ∷ rest) s v = Ensures-bind _ _ λ s' step.
    let (v', one) = (read_node-IsListed index raw s v).holds s' step in
    record {
      holds = λ t h.
          let (listed, more) = (read_nodes-IsListed_from (suc index) rest s' v').holds t h in
          (listed, omega arith);
    }

-- The loop lists every node once.
pub read_nodes-IsListed :
    (raws : List Json)
    → Ensures (λ s. IsListed s × (length s.node_names ≡ length raws)) (read_nodes 0 raws no_nodes)
read_nodes-IsListed raws = record {
  holds = λ s h.
      let (listed, count) =
        (read_nodes-IsListed_from 0 raws no_nodes no_nodes-IsListed).holds s h in
      (listed, omega arith);
}

only_simulator-single :
    (ss : List Simulator) → Ensures (λ simulator. ss ≡ simulator ∷ []) (only_simulator ss)
unfolding only_simulator
only_simulator-single [] = Ensures-err _
only_simulator-single (s ∷ []) = Ensures-ok s refl
only_simulator-single (s ∷ s' ∷ rest) = Ensures-err _

-- What the checks behind the loop establish of the simulator and the number of nodes.
pub record IsUniform (h : Header) (s : NodeState) (simulator : Simulator) : Type 0 where
  pub only : s.simulators ≡ simulator ∷ []
  pub at_least : 2 ≤ length h.nodes
  pub at_most : length h.nodes ≤ 8
  pub one_profile : length s.profiles ≤ 1
  pub cold_qemu : simulator ≡ qemu → (h.checkpoint == "none") ≡ true

pub check_nodes-IsUniform : (h : Header) (s : NodeState) → Ensures (IsUniform h s) (check_nodes h s)
unfolding check_nodes
check_nodes-IsUniform h s = Ensures-bind _ _ λ simulator only. Ensures-raise_if _ _ _ λ gem5_count.
    Ensures-raise_if _ _ _ λ qemu_count. Ensures-raise_if _ _ _ λ profiles.
      Ensures-raise_if _ _ _ λ cold. Ensures-ok simulator (record {
        only = (only_simulator-single s.simulators).holds simulator only;
        at_least = at_least simulator gem5_count qemu_count;
        at_most = at_most simulator gem5_count qemu_count;
        one_profile = ground arith;
        cold_qemu = λ e. ground arith;
      })
  where
    at_least :
        (simulator : Simulator)
        → (simulator == gem5 && not (leb 2 (length h.nodes) && leb (length h.nodes) 8)) ≡ false
        → (simulator == qemu && not (leb 2 (length h.nodes) && leb (length h.nodes) 8)) ≡ false
        → 2 ≤ length h.nodes
    at_least gem5 a b = ground arith
    at_least qemu a b = ground arith

    at_most :
        (simulator : Simulator)
        → (simulator == gem5 && not (leb 2 (length h.nodes) && leb (length h.nodes) 8)) ≡ false
        → (simulator == qemu && not (leb 2 (length h.nodes) && leb (length h.nodes) 8)) ≡ false
        → length h.nodes ≤ 8
    at_most gem5 a b = ground arith
    at_most qemu a b = ground arith
