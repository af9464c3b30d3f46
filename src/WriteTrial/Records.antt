-- ===== src/WriteTrial/Records.antt =====
-- tools/check_qemu_write_trial.py: the records of the report, in `audit`.
use openurma_gem5_lab.Prelude.{
  ℕ, ◌+◌, String, ◌<>◌, Bool, true, false, not, ◌&&◌, ◌||◌, List, [], ◌∷◌, ◌++◌, map, length, take,
  drop, Option, some, none, any, all, contains, index_of, ◌==◌, nat_eq, string_eq, list_eq,
  if◌then◌else◌,
}
use openurma_gem5_lab.Prelude.Dict.{keys}
use openurma_gem5_lab.Prelude.Int.{ℤ, pos}
use openurma_gem5_lab.Prelude.Text.{codes, str}
use openurma_gem5_lab.Prelude.Result.{ok, err, ◌>>=◌, ◌>>◌}
use openurma_gem5_lab.Checkpoint.{starts_with}
use openurma_gem5_lab.WriteTrial.Command.{
  Audited, require, server, client, TrialConfig, count_of, value_of_flag, command_config,
}

-- A record of the report, with what `get` gives for a missing key.
pub record TrialRecord : Type 0 where
  pub label : String
  pub returncode : Option ℤ
  pub validation_errors : Option (List String)
  pub command : List String

-- An entry of `cases`, without what is printed.
pub record Workload : Type 0 where
  pub verb : String
  pub bidirectional : Bool
  pub size : ℕ
  pub count : ℕ

-- The variables that the loop over the records sets.
pub record Auditing : Type 0 where
  pub seen : List String
  pub trial_verb : Option String
  pub trial_bidirectional : Option Bool
  pub cases : List Workload

unfoldable pub is_zero : Option ℤ → Bool
is_zero (some (pos n)) = n == 0
is_zero _ = false

unfoldable pub is_empty_list : Option (List String) → Bool
is_empty_list (some []) = true
is_empty_list _ = false

-- `[r for r in records if r.get("label") == label]`
unfoldable pub matches_of : String → List TrialRecord → List TrialRecord
matches_of label [] = []
matches_of label (r ∷ records) =
    let more = matches_of label records in if r.label == label then r ∷ more else more

unfoldable pub is_done : List TrialRecord → Bool
unfolding is_zero
is_done (r ∷ []) = is_zero r.returncode
is_done _ = false

unfoldable pub check_required : List TrialRecord → List String → Audited (Unit {0})
unfolding matches_of is_done
check_required records [] = ok tt
check_required records (label ∷ labels) = do
  require (is_done (matches_of label records)) ("missing/failed " <> label)
  check_required records labels

-- `part in text`, of codes
unfoldable pub has_part : List ℕ → List ℕ → Bool
has_part part [] = part == []
has_part part (c ∷ text) = take (length part) (c ∷ text) == part || has_part part text

unfoldable pub is_perf : List String → Bool
unfolding has_part
is_perf command = any (λ item. has_part (codes "urma_perftest") (codes item)) command

abbrev pub bw_verbs : List String
bw_verbs = "write" ∷ "read" ∷ "send" ∷ []

-- `re.match(r"^(write|read|send)-", label)`
unfoldable pub is_workload : String → Bool
unfolding starts_with
is_workload label = any (λ verb. starts_with label (verb <> "-")) bw_verbs

unfoldable pub same_bool : Bool → Bool → Bool
same_bool true b = b
same_bool false b = not b

-- `trial is None or value == trial`
unfoldable pub agrees {ℓ} : {A : Type ℓ} → (A → A → Bool) → Option A → A → Bool
agrees same none value = true
agrees same (some trial) value = same value trial

-- The configurations of both commands list their flags in one order.
unfoldable pub same_config : TrialConfig → TrialConfig → Bool
unfolding same_bool
same_config a b =
    a.verb == b.verb
    && same_bool a.bidirectional b.bidirectional
    && keys a.values == keys b.values
    && map (λ (entry : String × ℕ). entry.1) a.values
      == map (λ (entry : String × ℕ). entry.1) b.values

unfoldable pub pair_of : List String → Audited (String × String)
pair_of (first ∷ second ∷ []) = ok (first, second)
pair_of _ = err "expected exactly two guest commands"

-- `shlex.split`, and the decimal digits that `\d` takes.
module _ (split : String → Audited (List String)) (is_decimal : ℕ → Bool) where
  unfoldable pub are_digits : List ℕ → Bool
  are_digits [] = false
  are_digits (c ∷ text) = is_decimal c && all is_decimal text

  -- `re.fullmatch(r"(write|read|send)-\d+", label)`
  unfoldable pub is_sized : String → Bool
  unfolding are_digits starts_with
  is_sized label =
      any
        (λ verb.
          starts_with label (verb <> "-")
          && are_digits (drop (length (codes (verb <> "-"))) (codes label)))
        bw_verbs

  unfoldable pub commands_agree : String × String → Audited TrialConfig
  unfolding same_config
  commands_agree pair = do
    first ← split pair.0
    config ← command_config first server
    second ← split pair.1
    other ← command_config second client
    require (same_config other config) "endpoint commands differ"
    ok config

  -- The body of the loop for a workload, up to the check of its label.
  unfoldable pub audit_workload : Auditing → TrialRecord → Audited Auditing
  unfolding is_sized is_zero is_empty_list count_of pair_of commands_agree agrees same_bool
      value_of_flag
  audit_workload s r = do
    require (is_sized r.label && not (contains s.seen r.label)) "invalid/duplicate workload label"
    require (is_zero r.returncode && is_empty_list r.validation_errors)
        (r.label <> ": missing/failed runner validation")
    require (count_of "--commands" r.command == 1) (r.label <> ": missing paired commands")
    pair ← pair_of (drop (index_of "--commands" r.command + 1) r.command)
    config ← commands_agree pair
    require (agrees (λ a b. a == b) s.trial_verb config.verb)
        "mixed verbs or requested verb mismatch"
    require (agrees same_bool s.trial_bidirectional config.bidirectional) "mixed traffic directions"
    size ← value_of_flag config.values "-s"
    count ← value_of_flag config.values "-n"
    require (r.label == config.verb <> "-" <> str size) "label/command verb or size mismatch"
    ok (record {
      seen = s.seen ++ r.label ∷ [];
      trial_verb = some config.verb;
      trial_bidirectional = some config.bidirectional;
      cases =
          s.cases
          ++ record {
            verb = config.verb;
            bidirectional = config.bidirectional;
            size = size;
            count = count;
          }
            ∷ [];
    })

  unfoldable pub other_record : Auditing → TrialRecord → Audited Auditing
  unfolding is_perf
  other_record s r = do require (not (is_perf r.command)) "unsupported performance workload"; ok s

  unfoldable pub audit_record : Auditing → TrialRecord → Audited Auditing
  unfolding is_workload audit_workload other_record
  audit_record s r = if is_workload r.label then audit_workload s r else other_record s r

  -- `for record in records`
  unfoldable pub audit_records : Auditing → List TrialRecord → Audited Auditing
  unfolding audit_record
  audit_records s [] = ok s
  audit_records s (r ∷ records) = do next ← audit_record s r; audit_records next records

  -- The required records, the loop from its start with the requested verb, and the check behind it.
  unfoldable pub audit_report : Option String → List TrialRecord → Audited Auditing
  unfolding check_required audit_records
  audit_report verb records = do
    check_required records ("launch" ∷ "shell-ready" ∷ "network" ∷ "stop" ∷ [])
    s ←
        audit_records
          (record { seen = []; trial_verb = verb; trial_bidirectional = none; cases = [] }) records
    require (not (length s.cases == 0)) "no supported bandwidth cases"
    ok s
