-- ===== src/Tests/WriteTrial.antt =====
-- tools/check_qemu_write_trial.py: a write trial in both directions, its commands and its counters.
use openurma_gem5_lab.Prelude.{
  ℕ, ◌≡◌, refl, String, true, List, [], ◌∷◌, ◌++◌, map, nat_eq, string_eq, some, none, leb, ◌&&◌,
  ◌==◌, if◌then◌else◌, Bool,
}
use openurma_gem5_lab.Prelude.Dict.{Dict, lookup, has}
use openurma_gem5_lab.Prelude.Text.{int_of, str}
use openurma_gem5_lab.Prelude.Result.{ok, err, ◌>>=◌}
use openurma_gem5_lab.Checkpoint.{starts_with}
use openurma_gem5_lab.WriteTrial.Command.{
  server, client, TrialConfig, count_of, verbs_in, only_verb, is_prefix, check_options, word_after,
  is_word, has_once, check_role, flags_for, ranged, number_after, flag_values, value_of_flag,
  command_config, peak_policy, Audited,
}
use openurma_gem5_lab.Prelude.Int.{pos}
use openurma_gem5_lab.WriteTrial.Records.{
  check_required, matches_of, is_done, TrialRecord, Auditing, is_zero, is_empty_list, has_part,
  is_perf, is_workload, same_bool, agrees, same_config, pair_of, are_digits, is_sized,
  commands_agree, audit_workload, other_record, audit_record, audit_records, audit_report,
}
use openurma_gem5_lab.WriteTrial.OneKind.{audit_report-IsOneKind}
use openurma_gem5_lab.WriteTrial.Labels.{IsOneKind}
use openurma_gem5_lab.WriteTrial.Supported.{IsSupported, command_config-IsSupported}
use openurma_gem5_lab.WriteTrial.Counters.{
  Counts, Case, NodeCounts, work_keys, queue_keys, fault_keys, idle_keys, add_case, totals,
  is_count, equal, equal_all, present, directions_of, check_sends, check_fabric, node_wqes,
  event_slots, is_at_most, check_notifications, is_third_format, check_format, check_node,
  check_counters,
}
use openurma_gem5_lab.WriteTrial.Balanced.{IsBalanced, check_counters-IsBalanced}

abbrev write_words : List String
write_words =
    "urma_perftest" ∷ "write_bw" ∷ "-B" ∷ "--ctp" ∷ "-d" ∷ "udma0" ∷ "--eid_idx" ∷ "0" ∷ "-s" ∷ "64"
    ∷ "-n" ∷ "100" ∷ "-T" ∷ "8" ∷ "-J" ∷ "1" ∷ "-l" ∷ "1" ∷ "-Q" ∷ "1" ∷ "-I" ∷ "0" ∷ []

abbrev write_config : TrialConfig
write_config = record {
  verb = "write";
  bidirectional = true;
  values =
      ("-s", 64) ∷ ("-n", 100) ∷ ("-T", 8) ∷ ("-J", 1) ∷ ("-l", 1) ∷ ("-Q", 1) ∷ ("-I", 0) ∷ [];
}

write_words_accepted : command_config write_words server ≡ ok write_config
unfolding command_config verbs_in only_verb count_of is_prefix check_options word_after is_word
    has_once check_role flags_for ranged number_after flag_values value_of_flag starts_with ◌>>=◌
    int_of lookup
write_words_accepted = refl

command_config-IsSupported_example : IsSupported write_words server write_config
command_config-IsSupported_example =
    command_config-IsSupported write_words server write_config write_words_accepted

-- The words of a server do not name one; the client's do.
write_words_one_role : command_config write_words client ≡ err "client must connect to 10.0.0.1"
unfolding command_config verbs_in only_verb count_of is_prefix check_options word_after is_word
    has_once check_role flags_for ranged number_after flag_values value_of_flag starts_with ◌>>=◌
    int_of lookup
write_words_one_role = refl

peaks_disabled : peak_policy "write" 20001 ≡ 1 ∷ 1 ∷ []
unfolding peak_policy
peaks_disabled = refl

-- All keys with one value.
abbrev counted : List String → ℕ → Counts
counted names n = map (λ name. (name, n)) names

-- Three writes of 5000 bytes in each direction: two segments each.
abbrev three_writes : List Case
three_writes = record { size = 5000; count = 3 } ∷ []

abbrev fabric_after : Counts
fabric_after =
    counted work_keys 6
    ++ counted ("ctp_request_segments" ∷ "ctp_native_completions" ∷ "ctp_taacks" ∷ []) 12
    ++ counted ("payload_bytes" ∷ []) 30000
    ++ counted ("ctp_read_responses" ∷ []) 0
    ++ counted fault_keys 0

abbrev progress_after : Counts
progress_after =
    counted work_keys 6
    ++ counted
        ("native_tasks" ∷ "pending_target_dma" ∷ "scheduled_packets" ∷ "native_wqes_failed" ∷ []) 0
    ++ counted ("outputs_empty" ∷ []) 1

abbrev node_after : NodeCounts
node_after = record {
  profile =
      counted queue_keys 3
      ++ counted
          ("sq_depth_rejects" ∷ "sq_decode_rejects" ∷ "ubase_errors" ∷ "async_timestamp_jumps"
            ∷ "ceq_consumer_rejects" ∷ "notification_failures" ∷ "ceq_consumer_updates"
            ∷ "ceq_full_waits" ∷ [])
          0
      ++ counted
          ("rma_pending_peak" ∷ "sq_consumer_wraps" ∷ "event_queue_peak" ∷ "events_published" ∷ [])
          2;
  progress =
      counted queue_keys 3
      ++ counted ("quiescent" ∷ []) 1
      ++ counted idle_keys 0
      ++ counted ("event_slots_in_use" ∷ []) 0;
  host = counted ("reads" ∷ "writes" ∷ []) 0;
}

abbrev third_format : Dict String String
third_format = ("udma_state_format", "3") ∷ ("completion_event_slots", "64") ∷ []

three_writes_accepted :
    check_counters "write" true three_writes third_format fabric_after progress_after node_after
      node_after
    ≡ ok tt
unfolding check_counters totals add_case is_count equal equal_all present directions_of check_sends
    check_fabric node_wqes event_slots is_at_most check_notifications is_third_format check_format
    check_node ◌>>=◌ lookup has int_of
three_writes_accepted = refl

check_counters-IsBalanced_example :
    IsBalanced "write" true three_writes fabric_after progress_after node_after node_after
check_counters-IsBalanced_example =
    check_counters-IsBalanced "write" true three_writes third_format fabric_after progress_after
      node_after node_after three_writes_accepted

-- The words of the client, and a report of one trial.
abbrev client_words : List String
client_words = write_words ++ "-S" ∷ "10.0.0.1" ∷ []

-- Of two commands, `shlex.split` is asked by name.
abbrev split_of : String → Audited (List String)
split_of command = if command == "server command" then ok write_words else ok client_words

abbrev is_ascii_digit : ℕ → Bool
is_ascii_digit c = leb 48 c && leb c 57

abbrev step_record : String → TrialRecord
step_record label = record {
  label = label;
  returncode = some (pos 0);
  validation_errors = none;
  command = [];
}

abbrev write_record : TrialRecord
write_record = record {
  label = "write-64";
  returncode = some (pos 0);
  validation_errors = some [];
  command = "dual_serial_command.py" ∷ "--commands" ∷ "server command" ∷ "client command" ∷ [];
}

abbrev one_trial : List TrialRecord
one_trial =
    step_record "launch"
    ∷ step_record "shell-ready"
    ∷ step_record "network"
    ∷ write_record
    ∷ step_record "stop"
    ∷ []

abbrev after_one_trial : Auditing
after_one_trial = record {
  seen = "write-64" ∷ [];
  trial_verb = some "write";
  trial_bidirectional = some true;
  cases = record { verb = "write"; bidirectional = true; size = 64; count = 100 } ∷ [];
}

one_trial_accepted :
    audit_report split_of is_ascii_digit (some "write") one_trial ≡ ok after_one_trial
unfolding audit_report check_required matches_of is_done audit_records audit_record is_workload
    is_perf has_part other_record audit_workload commands_agree is_sized are_digits is_zero
    is_empty_list pair_of agrees same_bool same_config command_config verbs_in only_verb count_of
    is_prefix check_options word_after is_word has_once check_role flags_for ranged number_after
    flag_values value_of_flag starts_with ◌>>=◌ int_of lookup str
one_trial_accepted = refl

audit_report-IsOneKind_example : IsOneKind (some "write") after_one_trial.cases
audit_report-IsOneKind_example =
    audit_report-IsOneKind split_of is_ascii_digit (some "write") one_trial after_one_trial
      one_trial_accepted

-- A second trial of the size is refused.
repeated_trial :
    audit_report split_of is_ascii_digit none (write_record ∷ one_trial)
    ≡ err "invalid/duplicate workload label"
unfolding audit_report check_required matches_of is_done audit_records audit_record is_workload
    is_perf has_part other_record audit_workload commands_agree is_sized are_digits is_zero
    is_empty_list pair_of agrees same_bool same_config command_config verbs_in only_verb count_of
    is_prefix check_options word_after is_word has_once check_role flags_for ranged number_after
    flag_values value_of_flag starts_with ◌>>=◌ int_of lookup str
repeated_trial = refl
