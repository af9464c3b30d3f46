-- ===== src/RmaRegression/Fences.antt =====
-- tools/run_modular_rma_regression.py: `validate_fences`, of the lines that its regular expression reads.
pub mod Complete
use openurma_gem5_lab.Prelude.{
  ℕ, zero, suc, ◌+◌, ◌%◌, String, ◌<>◌, Bool, true, false, not, ◌&&◌, ◌||◌, List, [], ◌∷◌, ◌++◌,
  length, Option, some, none, leb, ltb, ◌==◌, nat_eq, string_eq, list_eq, pair_eq, if◌then◌else◌,
}
use openurma_gem5_lab.Prelude.Dict.{Dict, lookup}

-- The fields of a line that has the tag of its participant.
pub record FenceLine : Type 0 where
  pub generation : Option ℕ
  pub active : Option ℕ
  pub endpoints : Option String

-- A fence's generation, and 1 on entry or 0 on leaving.
abbrev pub FenceSequence : Type 0
FenceSequence = List (ℕ × ℕ)

abbrev pub participants : List String
participants = "host0" ∷ "host1" ∷ "udma0" ∷ "udma1" ∷ "network" ∷ []

unfoldable pub fence_of : FenceLine → Option (ℕ × ℕ)
fence_of line = elim line.generation [
  | none ↦ none
  | some generation ↦ elim line.active [ none ↦ none | some active ↦ some (generation, active) ]
]

unfoldable pub sequence_of : List FenceLine → FenceSequence
unfolding fence_of
sequence_of [] = []
sequence_of (line ∷ lines) = elim (fence_of line) [
  | none ↦ sequence_of lines
  | some fence ↦ fence ∷ sequence_of lines
]

unfoldable pub has_two_endpoints : FenceLine → Bool
has_two_endpoints line = elim line.endpoints [ none ↦ false | some number ↦ number == "2" ]

unfoldable pub line_error : String → FenceLine → List String
unfolding fence_of has_two_endpoints
line_error name line = elim (fence_of line) [
  | none ↦ (name <> ": malformed fence") ∷ []
  | some fence ↦
      if name == "network" && not (has_two_endpoints line)
      then "network: fence must include two endpoints" ∷ []
      else []
]

unfoldable pub line_errors : String → List FenceLine → List String
unfolding line_error
line_errors name [] = []
line_errors name (line ∷ lines) = line_error name line ++ line_errors name lines

-- `not any(active != (1 if i % 2 == 0 else 0) ...)`, from an even or an odd place on
unfoldable pub alternates : Bool → FenceSequence → Bool
alternates even [] = true
alternates even ((generation, active) ∷ rest) =
    active == (if even then 1 else 0) && alternates (not even) rest

unfoldable pub increases : FenceSequence → Bool
increases [] = true
increases (a ∷ []) = true
increases (a ∷ b ∷ rest) = ltb a.0 b.0 && increases (b ∷ rest)

abbrev pub error_if : Bool → String → List String
error_if true text = text ∷ []
error_if false text = []

unfoldable pub sequence_errors : String → FenceSequence → List String
unfolding alternates increases
sequence_errors name sequence =
    error_if (length sequence == 0 || not (length sequence % 2 == 0))
      (name <> ": missing complete enter/leave fence pair")
    ++ error_if (not (alternates true sequence))
        (name <> ": fence active sequence must alternate 1,0")
    ++ error_if (not (increases sequence)) (name <> ": fence generations must increase")

unfoldable pub reference_errors : String → Option FenceSequence → FenceSequence → List String
reference_errors name none sequence = []
reference_errors name (some reference) sequence =
    error_if (not (sequence == reference))
      (name <> ": fence generations/targets differ between participants")

unfoldable pub reference_after : Option FenceSequence → FenceSequence → FenceSequence
reference_after none sequence = sequence
reference_after (some reference) sequence = reference

-- `logs.get(name, "")`, as its lines
unfoldable pub lines_of : Dict String (List FenceLine) → String → List FenceLine
lines_of logs name = elim (lookup name logs) [ none ↦ [] | some lines ↦ lines ]

-- `for name in ...`
unfoldable pub validate_from :
    Dict String (List FenceLine) → Option FenceSequence → List String → List String
unfolding lines_of sequence_of line_errors sequence_errors reference_errors reference_after
validate_from logs reference [] = []
validate_from logs reference (name ∷ names) =
    line_errors name (lines_of logs name)
    ++ sequence_errors name (sequence_of (lines_of logs name))
    ++ reference_errors name reference (sequence_of (lines_of logs name))
    ++ validate_from logs (some (reference_after reference (sequence_of (lines_of logs name))))
        names

unfoldable pub validate_fences : Dict String (List FenceLine) → List String
unfolding validate_from
validate_fences logs = validate_from logs none participants
