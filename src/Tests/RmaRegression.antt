-- ===== src/Tests/RmaRegression.antt =====
-- tools/run_modular_rma_regression.py: the fences of one round, and two commands.
use openurma_gem5_lab.Prelude.{
  ℕ, ◌≡◌, refl, String, true, List, [], ◌∷◌, map, length, take, some, none, nat_eq, string_eq,
  list_eq, pair_eq,
}
use openurma_gem5_lab.Prelude.Dict.{Dict, lookup}
use openurma_gem5_lab.Prelude.Text.{str, join}
use openurma_gem5_lab.RmaRegression.{
  full_cases, sync_smoke_cases, timing_send_cases, outstanding_cases, boundary_cases, multi_cases,
  queue_words, size_words, server_words, case_command,
}
use openurma_gem5_lab.RmaRegression.Fences.{
  FenceLine, participants, fence_of, sequence_of, has_two_endpoints, line_error, line_errors,
  alternates, increases, sequence_errors, reference_errors, reference_after, lines_of,
  validate_from, validate_fences,
}
use openurma_gem5_lab.RmaRegression.Fences.Complete.{AreComplete, validate_fences-AreComplete}

abbrev fence_line : ℕ → ℕ → FenceLine
fence_line generation active = record {
  generation = some generation;
  active = some active;
  endpoints = some "2";
}

abbrev one_round : Dict String (List FenceLine)
one_round = map (λ name. (name, fence_line 4 1 ∷ fence_line 5 0 ∷ [])) participants

one_round_accepted : validate_fences one_round ≡ []
unfolding validate_fences validate_from lines_of sequence_of fence_of has_two_endpoints line_error
    line_errors alternates increases sequence_errors reference_errors reference_after lookup
one_round_accepted = refl

validate_fences-AreComplete_example : AreComplete one_round
validate_fences-AreComplete_example = validate_fences-AreComplete one_round one_round_accepted

-- Half a round of one participant.
half_round :
    validate_from (("host0", fence_line 4 1 ∷ []) ∷ []) none ("host0" ∷ [])
    ≡ "host0: missing complete enter/leave fence pair" ∷ []
unfolding validate_from lines_of sequence_of fence_of has_two_endpoints line_error line_errors
    alternates increases sequence_errors reference_errors reference_after lookup
half_round = refl

suite_sizes :
    map length (
      full_cases ∷ sync_smoke_cases ∷ timing_send_cases ∷ outstanding_cases ∷ boundary_cases
      ∷ multi_cases ∷ [])
    ≡ 12 ∷ 5 ∷ 3 ∷ 9 ∷ 36 ∷ 6 ∷ []
suite_sizes = refl

synchronized_commands :
    map (λ c. case_command c 21300 (some "10.0.0.1") true (some 64) 2) (take 1 multi_cases)
    ≡ "UBSIM_DIST_SYNC=1 OPENURMA_DIST_SYNC=1 LD_LIBRARY_PATH=/lib:/usr/lib urma_perftest send_bw -d udma0 --eid_idx 0 --ctp -P 21300 -J 2 -I 64 -n 512 -l 16 -Q 16 -p 0 -T 64 -R 64 --jettys_pre_jfr 1 -s 128 -B -S 10.0.0.1"
      ∷ []
unfolding case_command queue_words size_words server_words str join
synchronized_commands = refl
