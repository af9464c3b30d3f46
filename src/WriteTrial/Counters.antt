-- ===== src/WriteTrial/Counters.antt =====
-- tools/check_qemu_write_trial.py: the counters of the fabric and the devices, of `audit`.
use openurma_gem5_lab.Prelude.{
  ℕ, zero, suc, ◌+◌, ◌*◌, ◌/◌, String, ◌<>◌, Bool, true, false, ◌&&◌, ◌||◌, List, [], ◌∷◌, Option,
  some, none, leb, ◌==◌, nat_eq, string_eq, if◌then◌else◌,
}
use openurma_gem5_lab.Prelude.Dict.{Dict, lookup, has}
use openurma_gem5_lab.Prelude.Int.{pos, negsuc}
use openurma_gem5_lab.Prelude.Text.{codes, int_of}
use openurma_gem5_lab.Prelude.Result.{ok, err, ◌>>=◌, ◌>>◌}
use openurma_gem5_lab.WriteTrial.Command.{Audited, require}

-- What `last_fields` reads of a line of counters.
abbrev pub Counts : Type 0
Counts = Dict String ℕ

-- A trial's size and iterations.
pub record Case : Type 0 where
  pub size : ℕ
  pub count : ℕ

-- `expected_wqes`, `expected_payload` and `expected_segments`
pub record Totals : Type 0 where
  pub wqes : ℕ
  pub payload : ℕ
  pub segments : ℕ

unfoldable pub add_case : ℕ → Totals → Case → Totals
add_case directions t c = record {
  wqes = t.wqes + c.count;
  payload = t.payload + directions * c.count * c.size;
  segments = t.segments + directions * c.count * ((c.size + 4095) / 4096);
}

unfoldable pub totals : ℕ → Totals → List Case → Totals
unfolding add_case
totals directions t [] = t
totals directions t (c ∷ rest) = totals directions (add_case directions t c) rest

unfoldable pub is_count : ℕ → Option ℕ → Bool
is_count expected none = false
is_count expected (some n) = n == expected

-- `equal`
unfoldable pub equal : Counts → String → ℕ → Audited (Unit {0})
unfolding is_count
equal fields key expected = require (is_count expected (lookup key fields)) key

-- `for key in keys: equal(fields, key, expected)`
unfoldable pub equal_all : Counts → List String → ℕ → Audited (Unit {0})
unfolding equal
equal_all fields [] expected = ok tt
equal_all fields (key ∷ rest) expected = do
  equal fields key expected
  equal_all fields rest expected

unfoldable pub present : Counts → List String → Audited (Unit {0})
present fields [] = ok tt
present fields (key ∷ rest) = do require (has key fields) ("missing " <> key); present fields rest

unfoldable pub directions_of : Bool → ℕ
directions_of true = 2
directions_of false = 1

-- Counters that are compared with one value.
abbrev pub work_keys : List String
work_keys = "native_wqes_submitted" ∷ "native_wqes_completed" ∷ []

abbrev pub queue_keys : List String
queue_keys = "sq_wqes" ∷ "sq_completions" ∷ []

abbrev pub fault_keys : List String
fault_keys =
    "native_wqes_failed" ∷ "target_dma_errors" ∷ "pending_target_dma" ∷ "ns3_runtime_drops"
    ∷ "native_trace_size_mismatches" ∷ "ctp_retransmission_exhausted" ∷ "async_timestamp_jumps" ∷ []

abbrev pub idle_keys : List String
idle_keys =
    "pending_rma" ∷ "read_dma_queues" ∷ "remote_services" ∷ "completion_events" ∷ "event_busy"
    ∷ "receive_busy" ∷ "destroy_pending" ∷ []

-- The counter of delivered sends, which only some fabrics have.
unfoldable pub check_sends : String → Counts → ℕ → Audited (Unit {0})
unfolding equal
check_sends verb fabric segments =
    if verb == "send"
    then equal fabric "ctp_native_send_delivery_completions" segments
    else if verb == "read" || has "ctp_native_send_delivery_completions" fabric
    then equal fabric "ctp_native_send_delivery_completions" 0
    else ok tt

-- The checks of `NS3_UB_NET_STATS` and `NS3_UB_NET_PROGRESS`.
unfoldable pub check_fabric : String → Bool → Totals → Counts → Counts → Audited (Unit {0})
unfolding equal equal_all directions_of check_sends
check_fabric verb bidirectional t fabric progress = do
  equal_all progress
      ("native_tasks" ∷ "pending_target_dma" ∷ "scheduled_packets" ∷ "native_wqes_failed" ∷ []) 0
  equal progress "outputs_empty" 1
  equal_all progress work_keys (directions_of bidirectional * t.wqes)
  equal_all fabric work_keys (directions_of bidirectional * t.wqes)
  equal fabric "payload_bytes" (t.payload * (if verb == "read" then 2 else 1))
  equal_all fabric ("ctp_request_segments" ∷ "ctp_native_completions" ∷ []) t.segments
  equal fabric "ctp_taacks" (if verb == "write" then t.segments else 0)
  equal fabric "ctp_read_responses" (if verb == "read" then t.segments else 0)
  check_sends verb fabric t.segments
  equal_all fabric fault_keys 0

-- The three lines of a node's device.
pub record NodeCounts : Type 0 where
  pub profile : Counts
  pub progress : Counts
  pub host : Counts

-- `node_wqes`
unfoldable pub node_wqes : Bool → ℕ → ℕ → ℕ
node_wqes true node wqes = wqes
node_wqes false zero wqes = 0
node_wqes false (suc node) wqes = wqes

-- `int(manifest["completion_event_slots"])`, within its bounds
unfoldable pub event_slots : Dict String String → Audited ℕ
event_slots manifest = elim (lookup "completion_event_slots" manifest) [
  | none ↦ err "missing/invalid completion event slot budget"
  | some text ↦ elim (int_of (codes text)) [
    | none ↦ err "missing/invalid completion event slot budget"
    | some (negsuc n) ↦ err "invalid completion event slot budget"
    | some (pos n) ↦
        if leb 1 n && leb n 4096 then ok n else err "invalid completion event slot budget"
  ]
]

unfoldable pub is_at_most : ℕ → Option ℕ → Bool
is_at_most bound none = false
is_at_most bound (some n) = leb n bound

-- The notifications of a device of the third state format.
unfoldable pub check_notifications : Dict String String → NodeCounts → Audited (Unit {0})
unfolding event_slots equal equal_all present is_at_most
check_notifications manifest n = do
  slots ← event_slots manifest
  equal_all n.profile ("ceq_consumer_rejects" ∷ "notification_failures" ∷ []) 0
  equal n.progress "event_slots_in_use" 0
  require (is_at_most slots (lookup "event_queue_peak" n.profile))
      "notification event queue exceeds configured bound"
  present n.profile ("ceq_consumer_updates" ∷ "ceq_full_waits" ∷ "events_published" ∷ [])

unfoldable pub is_third_format : Option String → Bool
is_third_format none = false
is_third_format (some format) = format == "3"

unfoldable pub check_format : Bool → Dict String String → NodeCounts → Audited (Unit {0})
unfolding check_notifications
check_format true manifest n = check_notifications manifest n
check_format false manifest n = ok tt

-- The body of the loop over the two nodes; the reported values are left out.
unfoldable pub check_node :
    String → Bool → ℕ → Dict String String → ℕ → NodeCounts → Audited (Unit {0})
unfolding equal equal_all present node_wqes is_third_format check_format
check_node verb bidirectional wqes manifest node n = do
  equal_all n.profile queue_keys (node_wqes bidirectional node wqes)
  equal_all n.progress queue_keys (node_wqes bidirectional node wqes)
  equal_all n.profile
      ("sq_depth_rejects" ∷ "sq_decode_rejects" ∷ "ubase_errors" ∷ "async_timestamp_jumps" ∷ []) 0
  equal n.progress "quiescent" 1
  equal_all n.progress idle_keys 0
  equal_all n.host ("reads" ∷ "writes" ∷ []) 0
  present n.profile (
      if verb == "send"
      then "sq_consumer_wraps" ∷ []
      else "rma_pending_peak" ∷ "sq_consumer_wraps" ∷ [])
  check_format (is_third_format (lookup "udma_state_format" manifest)) manifest n

-- The checks behind the loop over the records.
unfoldable pub check_counters :
    String
    → Bool
    → List Case
    → Dict String String
    → Counts
    → Counts
    → NodeCounts
    → NodeCounts
    → Audited (Unit {0})
unfolding totals directions_of check_fabric check_node
check_counters verb bidirectional cases manifest fabric progress first second = do
  let t : Totals =
      totals (directions_of bidirectional) (record { wqes = 0; payload = 0; segments = 0 }) cases
  check_fabric verb bidirectional t fabric progress
  check_node verb bidirectional t.wqes manifest 0 first
  check_node verb bidirectional t.wqes manifest 1 second
