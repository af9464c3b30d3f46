-- ===== src/WriteTrial/Balanced.antt =====
-- tools/check_qemu_write_trial.py: what accepted counters say of a trial's work.
use openurma_gem5_lab.Prelude.{
  ℕ, ◌+◌, ◌*◌, ◌≡◌, sym, ap, ◌∙◌, String, Bool, true, false, List, [], ◌∷◌, Option, some, none, All,
  ◌==◌, nat_eq, string_eq, if◌then◌else◌, arith,
}
use openurma_gem5_lab.Prelude.Dict.{Dict, lookup}
use openurma_gem5_lab.Prelude.Result.{ok, Ensures, Ensures-bind, Ensures-ok}
use mathlib.Core.Path.{subst}
use openurma_gem5_lab.WriteTrial.Command.{require}
use openurma_gem5_lab.WriteTrial.Counters.{
  work_keys, queue_keys, fault_keys, idle_keys, Counts, Case, Totals, add_case, totals, is_count,
  equal, equal_all, directions_of, check_fabric, NodeCounts, node_wqes, check_node, check_counters,
}

-- The iterations and the bytes of all trials, in one direction.
unfoldable pub iterations : List Case → ℕ
iterations [] = 0
iterations (c ∷ rest) = c.count + iterations rest

unfoldable pub bytes : List Case → ℕ
bytes [] = 0
bytes (c ∷ rest) = c.count * c.size + bytes rest

-- Each of the counters has the value.
abbrev pub AreAll : Counts → ℕ → List String → Type 0
AreAll fields value = All (λ key. lookup key fields ≡ some value)

abbrev pub pending_keys : List String
pending_keys =
    "native_tasks" ∷ "pending_target_dma" ∷ "scheduled_packets" ∷ "native_wqes_failed" ∷ []

abbrev pub reject_keys : List String
reject_keys =
    "sq_depth_rejects" ∷ "sq_decode_rejects" ∷ "ubase_errors" ∷ "async_timestamp_jumps" ∷ []

-- A device has completed that many requests, all that it got, without a failure, and is at rest.
pub record IsSettled (done : ℕ) (n : NodeCounts) : Type 0 where
  pub reported : AreAll n.profile done ("sq_wqes" ∷ "sq_completions" ∷ [])
  pub counted : AreAll n.progress done ("sq_wqes" ∷ "sq_completions" ∷ [])
  pub faultless : AreAll n.profile 0 reject_keys
  pub quiescent : lookup "quiescent" n.progress ≡ some 1
  pub idle : AreAll n.progress 0 (
      "pending_rma" ∷ "read_dma_queues" ∷ "remote_services" ∷ "completion_events" ∷ "event_busy"
      ∷ "receive_busy" ∷ "destroy_pending" ∷ [])
  pub host_idle : AreAll n.host 0 ("reads" ∷ "writes" ∷ [])

-- The fabric has completed what the two nodes have, which is all the work of the trials, and carried
-- its bytes, those of a read twice; nothing failed, was dropped or is left to be done.
pub record IsBalanced (verb : String) (bidirectional : Bool) (cases : List Case)
    (fabric progress : Counts) (first second : NodeCounts) : Type 0 where
  pub first_done : ℕ
  pub second_done : ℕ
  pub first_settled : IsSettled first_done first
  pub second_settled : IsSettled second_done second
  pub completed :
      AreAll fabric
        (first_done + second_done)
        ("native_wqes_submitted" ∷ "native_wqes_completed" ∷ [])
  pub progressed :
      AreAll progress
        (first_done + second_done)
        ("native_wqes_submitted" ∷ "native_wqes_completed" ∷ [])
  pub worked : first_done + second_done ≡ directions_of bidirectional * iterations cases
  pub carried :
      lookup "payload_bytes" fabric
      ≡ some (directions_of bidirectional * bytes cases * (if verb == "read" then 2 else 1))
  pub faultless : AreAll fabric 0 (
      "native_wqes_failed" ∷ "target_dma_errors" ∷ "pending_target_dma" ∷ "ns3_runtime_drops"
      ∷ "native_trace_size_mismatches" ∷ "ctp_retransmission_exhausted" ∷ "async_timestamp_jumps"
      ∷ [])
  pub idle : AreAll progress 0 pending_keys
  pub drained : lookup "outputs_empty" progress ≡ some 1

is_count_lem :
    (expected : ℕ) (o : Option ℕ) (key : String) (u : Unit {0})
    → require (is_count expected o) key ≡ ok u
    → o ≡ some expected
unfolding is_count
is_count_lem expected none key u h = cc
is_count_lem expected (some n) key u h = ap some (ground (arith, nat_eq.test_iff))

equal_lem :
    (fields : Counts) (key : String) (expected : ℕ) (u : Unit {0})
    → equal fields key expected ≡ ok u
    → lookup key fields ≡ some expected
unfolding equal
equal_lem fields key expected u h = is_count_lem expected (lookup key fields) key u h

equal_all-All :
    (fields : Counts) (keys : List String) (expected : ℕ)
    → Ensures
        (λ _. All (λ key. lookup key fields ≡ some expected) keys)
        (equal_all fields keys expected)
unfolding equal_all
equal_all-All fields [] expected = Ensures-ok _ tt
equal_all-All fields (key ∷ rest) expected = Ensures-bind _ _ λ u one. record {
  holds =
      λ v h. (equal_lem fields key expected u one, (equal_all-All fields rest expected).holds v h);
}

totals_sum :
    (directions : ℕ) (t : Totals) (cases : List Case)
    → ((totals directions t cases).wqes ≡ t.wqes + iterations cases)
      × ((totals directions t cases).payload ≡ t.payload + directions * bytes cases)
unfolding totals add_case iterations bytes
totals_sum directions t [] = (omega arith, grind arith)
totals_sum directions t (c ∷ rest) =
    let more = totals_sum directions (add_case directions t c) rest in
    (omega (arith, more.0), grind (arith, more.1))

totals_from_zero :
    (directions : ℕ) (cases : List Case)
    → ((totals directions (record { wqes = 0; payload = 0; segments = 0 }) cases).wqes
        ≡ iterations cases)
      × ((totals directions (record { wqes = 0; payload = 0; segments = 0 }) cases).payload
          ≡ directions * bytes cases)
totals_from_zero directions cases =
    let (work, load) =
      totals_sum directions (record { wqes = 0; payload = 0; segments = 0 }) cases in
    (work ∙ omega arith, load ∙ omega arith)

record IsFabric (verb : String) (bidirectional : Bool) (t : Totals) (fabric progress : Counts)
    : Type 0 where
  completed : AreAll fabric (directions_of bidirectional * t.wqes) work_keys
  progressed : AreAll progress (directions_of bidirectional * t.wqes) work_keys
  carried : lookup "payload_bytes" fabric ≡ some (t.payload * (if verb == "read" then 2 else 1))
  faultless : AreAll fabric 0 fault_keys
  idle : AreAll progress 0 pending_keys
  drained : lookup "outputs_empty" progress ≡ some 1

check_fabric-IsFabric :
    (verb : String) (bidirectional : Bool) (t : Totals) (fabric progress : Counts)
    → Ensures
        (λ _. IsFabric verb bidirectional t fabric progress)
        (check_fabric verb bidirectional t fabric progress)
unfolding check_fabric
check_fabric-IsFabric verb bidirectional t fabric progress = Ensures-bind _ _ λ a idle.
    Ensures-bind _ _ λ b drained. Ensures-bind _ _ λ c progressed. Ensures-bind _ _ λ u done.
      Ensures-bind _ _ λ v payload. Ensures-bind _ _ λ _ _. Ensures-bind _ _ λ _ _.
        Ensures-bind _ _ λ _ _. Ensures-bind _ _ λ _ _. record {
          holds = λ w zeros. record {
            completed = (equal_all-All fabric work_keys _).holds u done;
            progressed = (equal_all-All progress work_keys _).holds c progressed;
            carried = equal_lem fabric _ _ v payload;
            faultless = (equal_all-All fabric fault_keys 0).holds w zeros;
            idle = (equal_all-All progress pending_keys 0).holds a idle;
            drained = equal_lem progress _ _ b drained;
          };
        }

check_node-IsSettled :
    (verb : String) (bidirectional : Bool) (wqes : ℕ) (manifest : Dict String String) (node : ℕ)
    (n : NodeCounts)
    → Ensures
        (λ _. IsSettled (node_wqes bidirectional node wqes) n)
        (check_node verb bidirectional wqes manifest node n)
unfolding check_node
check_node-IsSettled verb bidirectional wqes manifest node n = Ensures-bind _ _ λ t reported.
    Ensures-bind _ _ λ u work. Ensures-bind _ _ λ a faultless. Ensures-bind _ _ λ b quiescent.
      Ensures-bind _ _ λ v idle. Ensures-bind _ _ λ c at_host. Ensures-bind _ _ λ _ _. record {
        holds = λ w h. record {
          reported = (equal_all-All n.profile queue_keys _).holds t reported;
          counted = (equal_all-All n.progress queue_keys _).holds u work;
          faultless = (equal_all-All n.profile reject_keys 0).holds a faultless;
          quiescent = equal_lem n.progress _ _ b quiescent;
          idle = (equal_all-All n.progress idle_keys 0).holds v idle;
          host_idle = (equal_all-All n.host ("reads" ∷ "writes" ∷ []) 0).holds c at_host;
        };
      }

node_wqes_sum :
    (bidirectional : Bool) (wqes : ℕ)
    → node_wqes bidirectional 0 wqes + node_wqes bidirectional 1 wqes
      ≡ directions_of bidirectional * wqes
unfolding node_wqes directions_of
node_wqes_sum true wqes = omega arith
node_wqes_sum false wqes = omega arith

-- If the audit accepts the counters of a trial, then the fabric has submitted and completed as many
-- requests as the two nodes have completed together, which is the iterations of all cases in each
-- direction; it has carried their bytes, those of a read twice; its counters of failed work, failed or
-- pending target DMA, runtime drops, size mismatches, exhausted retransmission and timestamp jumps, and
-- of native tasks and scheduled packets, are 0 and its outputs are empty; and each node is quiescent,
-- with as many requests queued as completed and no rejects, errors, pending requests or host accesses.
pub check_counters-IsBalanced :
    (verb : String) (bidirectional : Bool) (cases : List Case) (manifest : Dict String String)
    (fabric progress : Counts) (first second : NodeCounts)
    → check_counters verb bidirectional cases manifest fabric progress first second ≡ ok tt
    → IsBalanced verb bidirectional cases fabric progress first second
unfolding check_counters
check_counters-IsBalanced verb bidirectional cases manifest fabric progress first second h =
    let directions = directions_of bidirectional in
    let t : Totals = totals directions (record { wqes = 0; payload = 0; segments = 0 }) cases in
    let (work, load) = totals_from_zero directions cases in
    let both = node_wqes_sum bidirectional t.wqes in
    (Ensures-bind
        {P = λ (u : Unit {0}). IsBalanced verb bidirectional cases fabric progress first second} _ _
        λ u on_fabric. Ensures-bind _ _ λ v on_first. record {
          holds = λ w on_second.
              let f =
                (check_fabric-IsFabric verb bidirectional t fabric progress).holds u on_fabric in
              let a =
                (check_node-IsSettled verb bidirectional t.wqes manifest 0 first).holds v
                  on_first in
              let b =
                (check_node-IsSettled verb bidirectional t.wqes manifest 1 second).holds w
                  on_second in
              record {
                first_done = node_wqes bidirectional 0 t.wqes;
                second_done = node_wqes bidirectional 1 t.wqes;
                first_settled = a;
                second_settled = b;
                completed = subst (λ n. AreAll fabric n work_keys) (sym both) f.completed;
                progressed = subst (λ n. AreAll progress n work_keys) (sym both) f.progressed;
                worked = both ∙ ap (λ n. directions * n) work;
                carried = f.carried ∙ ap (λ n. some (n * (if verb == "read" then 2 else 1))) load;
                faultless = f.faultless;
                idle = f.idle;
                drained = f.drained;
              };
        }).holds
      tt h
