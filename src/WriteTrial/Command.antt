-- ===== src/WriteTrial/Command.antt =====
-- tools/check_qemu_write_trial.py: `command_config`, of the words that `shlex.split` gives.
use openurma_gem5_lab.Prelude.{
  ℕ, suc, ◌+◌, String, ◌<>◌, Bool, true, false, not, ◌&&◌, ◌||◌, List, [], ◌∷◌, Option, some, none,
  any, all, contains, index_of, get_elem?, take, drop, leb, ◌==◌, nat_eq, string_eq, if◌then◌else◌,
}
use openurma_gem5_lab.Prelude.Dict.{Dict, lookup}
use openurma_gem5_lab.Prelude.Int.{ℤ, pos, negsuc}
use openurma_gem5_lab.Prelude.Text.{codes, int_of}
use openurma_gem5_lab.Prelude.Result.{Result, ok, err, ◌>>=◌, ◌>>◌}
use openurma_gem5_lab.Checkpoint.{starts_with}

-- `AuditError`, by its message.
abbrev pub Audited : Type 0 → Type 0
Audited A = Result String A

-- `require`
abbrev pub require : Bool → String → Audited (Unit {0})
require true message = ok tt
require false message = err message

pub data Role : Type 0 where
  server client anyone : Role

pub record TrialConfig : Type 0 where
  pub verb : String
  pub bidirectional : Bool
  pub values : Dict String ℕ

-- `args.count(word)`
unfoldable pub count_of : String → List String → ℕ
count_of word [] = 0
count_of word (a ∷ args) = if a == word then suc (count_of word args) else count_of word args

-- `verbs`
unfoldable pub verbs_in : List String → List String → List String
verbs_in args [] = []
verbs_in args (verb ∷ rest) =
    let more = verbs_in args rest in if contains args (verb <> "_bw") then verb ∷ more else more

unfoldable pub only_verb : List String → List String → Audited String
only_verb args (verb ∷ []) =
    if contains args "urma_perftest"
    then ok verb
    else err "only explicit-size write/read/send_bw is supported"
only_verb args _ = err "only explicit-size write/read/send_bw is supported"

-- The tokens in front of the executable.
unfoldable pub is_prefix : String → Bool
unfolding starts_with
is_prefix token = starts_with token "LD_LIBRARY_PATH=" || token == "UBSIM_BW_REPORT_DIAGNOSTIC=1"

abbrev pub value_flags : List String
value_flags =
    "-s" ∷ "-n" ∷ "-T" ∷ "-J" ∷ "-l" ∷ "-Q" ∷ "-I" ∷ "-R" ∷ "-d" ∷ "--eid_idx" ∷ "-S" ∷ "-P" ∷ "-p"
    ∷ "-C" ∷ []

-- `while remaining`; each round takes one word or two.
unfoldable pub check_options : List String → Audited (Unit {0})
check_options [] = ok tt
check_options (flag ∷ []) =
    if flag == "-B" || flag == "--ctp"
    then ok tt
    else err ("unsupported command mode/option: " <> flag)
check_options (flag ∷ value ∷ rest) =
    let shorter = check_options (value ∷ rest) in
    let past_value = check_options rest in
    if flag == "-B" || flag == "--ctp"
    then shorter
    else if contains value_flags flag
    then past_value
    else err ("unsupported command mode/option: " <> flag)

-- `args[args.index(flag) + 1]`
unfoldable pub word_after : String → List String → Option String
word_after flag args = get_elem? args (index_of flag args + 1)

unfoldable pub is_word : String → Option String → Bool
is_word expected none = false
is_word expected (some word) = word == expected

-- One `flag expected` that stands once.
unfoldable pub has_once : List String → String → String → Bool
unfolding count_of word_after is_word
has_once args flag expected = count_of flag args == 1 && is_word expected (word_after flag args)

unfoldable pub check_role : Role → List String → Audited (Unit {0})
unfolding has_once
check_role anyone args = ok tt
check_role server args =
    require (not (contains args "-S")) "server must not specify client destination"
check_role client args = require (has_once args "-S" "10.0.0.1") "client must connect to 10.0.0.1"

-- `flags`
unfoldable pub flags_for : String → List String → List String
flags_for verb args =
    "-s"
    ∷ "-n"
    ∷ "-T"
    ∷ "-J"
    ∷ "-l"
    ∷ "-Q"
    ∷ "-I"
    ∷ (if (verb == "read" || verb == "send") || contains args "-R" then "-R" ∷ [] else [])

-- `int(...)`, with its range
unfoldable pub ranged : String → Option ℤ → Audited ℕ
ranged flag none = err ("invalid " <> flag)
ranged flag (some (negsuc n)) = err ("invalid range for " <> flag)
ranged flag (some (pos n)) =
    if flag == "-I" then ok n else if leb 1 n then ok n else err ("invalid range for " <> flag)

unfoldable pub number_after : String → List String → Option ℤ
unfolding word_after
number_after flag args = elim (word_after flag args) [
  | none ↦ none
  | some word ↦ int_of (codes word)
]

unfoldable pub flag_values : List String → List String → Audited (Dict String ℕ)
unfolding count_of ranged number_after
flag_values args [] = ok []
flag_values args (flag ∷ rest) = do
  require (count_of flag args == 1) ("missing or duplicate " <> flag)
  value ← ranged flag (number_after flag args)
  others ← flag_values args rest
  ok ((flag, value) ∷ others)

-- `config[flag]`, which the loop has set
unfoldable pub value_of_flag : Dict String ℕ → String → Audited ℕ
value_of_flag values flag = elim (lookup flag values) [ none ↦ err flag | some value ↦ ok value ]

unfoldable pub command_config : List String → Role → Audited TrialConfig
unfolding verbs_in only_verb count_of is_prefix check_options has_once check_role flags_for
    flag_values value_of_flag
command_config args role = do
  verb ← only_verb args (verbs_in args ("write" ∷ "read" ∷ "send" ∷ []))
  require (leb (count_of "-B" args) 1) "duplicate bidirectional flag"
  let bidirectional : Bool = contains args "-B"
  require (bidirectional || verb == "read") "only READ supports unidirectional auditing"
  let executable : ℕ = index_of "urma_perftest" args
  require (all is_prefix (take executable args)) "unsupported command prefix"
  check_options (drop (executable + 2) args)
  require (count_of "--ctp" args == 1) "explicit CTP transport required"
  require (has_once args "-d" "udma0") "expected -d udma0"
  require (has_once args "--eid_idx" "0") "expected --eid_idx 0"
  check_role role args
  values ← flag_values args (flags_for verb args)
  jettys ← value_of_flag values "-J"
  require (jettys == 1) "multi-Jetty iteration accounting not supported"
  inline ← value_of_flag values "-I"
  require (not (verb == "read") || inline == 0)
      "READ does not support inline; require explicit -I 0"
  size ← value_of_flag values "-s"
  require (not (verb == "send") || leb size 4096)
      "SEND sizes above 4096 are outside the supported trial contract"
  require (not (any (λ arg. starts_with arg "-a") args)) "scan commands not supported"
  ok (record { verb = verb; bidirectional = bidirectional; values = values })

-- `peak_policy`, without its text
unfoldable pub peak_policy : String → ℕ → List ℕ
peak_policy verb iterations =
    if leb 20001 iterations then 1 ∷ 1 ∷ [] else if verb == "send" then 1 ∷ 0 ∷ [] else 0 ∷ 0 ∷ []
