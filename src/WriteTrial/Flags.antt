-- ===== src/WriteTrial/Flags.antt =====
-- tools/check_qemu_write_trial.py: what the flags of an accepted command say.
use openurma_gem5_lab.Prelude.{
  ℕ, ◌<>◌, ◌⊎◌, ◌+◌, ◌++◌, sym, inl, inr, index_of, get_elem?, Bool-cases, eq_iff, ◌≡◌, refl, ap,
  ◌∙◌, ◌||◌, String, Bool, true, false, List, [], ◌∷◌, Option, some, none, All, contains, leb, ◌==◌,
  nat_eq, string_eq, arith,
}
use openurma_gem5_lab.Prelude.Dict.{Dict, lookup, keys}
use openurma_gem5_lab.Prelude.Text.{codes, int_of}
use mathlib.Core.Path.{subst}
use openurma_gem5_lab.Prelude.Int.{ℤ, pos, negsuc}
use openurma_gem5_lab.Prelude.Result.{ok, err, Ensures, Ensures-bind, Ensures-ok, Ensures-err}
use openurma_gem5_lab.WriteTrial.Command.{
  Role, Audited, require, count_of, flags_for, flag_values, ranged, number_after, only_verb,
  verbs_in, value_of_flag, server, client, anyone, word_after, is_word, has_once, check_role,
}
use openurma_gem5_lab.Prelude.{Bool-cases, eq_iff, get_elem?, ◌++◌}
use openurma_gem5_lab.Prelude.{index_of}
use openurma_gem5_lab.Prelude.{◌+◌}

-- Each value but that of `-I` is positive.
abbrev pub IsRanged : String × ℕ → Type 0
IsRanged entry = (entry.0 == "-I" || leb 1 entry.1) ≡ true

-- The verb is the only one of the three that the command names.
pub record IsNamed (args : List String) (verb : String) : Type 0 where
  pub named : contains args (verb <> "_bw") ≡ true
  pub only :
      All
        (λ other. (other ≡ verb) ⊎ (contains args (other <> "_bw") ≡ false))
        ("write" ∷ "read" ∷ "send" ∷ [])

-- The word behind the flag is the number.
pub record IsWorded (args : List String) (entry : String × ℕ) : Type 0 where
  pub word : String
  pub behind : get_elem? args (index_of entry.0 args + 1) ≡ some word
  pub number : int_of (codes word) ≡ some (pos entry.1)

abbrev pub seven_flags : List String
seven_flags = "-s" ∷ "-n" ∷ "-T" ∷ "-J" ∷ "-l" ∷ "-Q" ∷ "-I" ∷ []

-- The flags with a number: `-R` too for a read, for a send, and where the command has it.
pub data IsFlagged (args : List String) (verb : String) (flags : List String) : Type 0 where
  posted : flags ≡ seven_flags ++ "-R" ∷ [] → IsFlagged args verb flags
  plain :
      flags ≡ seven_flags
      → (verb == "read") ≡ false
      → (verb == "send") ≡ false
      → contains args "-R" ≡ false
      → IsFlagged args verb flags

-- The client alone names the server.
pub data IsSide (args : List String) : Role → Type 0 where
  at_server : contains args "-S" ≡ false → IsSide args server
  at_client :
      count_of "-S" args ≡ 1
      → get_elem? args (index_of "-S" args + 1) ≡ some "10.0.0.1"
      → IsSide args client
  at_both : IsSide args anyone

is_word_lem :
    (word : Option String) (expected : String) → is_word expected word ≡ true → word ≡ some expected
unfolding is_word
is_word_lem none expected h = cc
is_word_lem (some word) expected h = ap some ((eq_iff word expected).0 h)

pub require_lem : (b : Bool) (message : String) (u : Unit {0}) → require b message ≡ ok u → b ≡ true
require_lem true message u h = refl
require_lem false message u h = cc

pub has_once_lem :
    (args : List String) (flag expected : String)
    → has_once args flag expected ≡ true
    → (count_of flag args ≡ 1) × (get_elem? args (index_of flag args + 1) ≡ some expected)
unfolding has_once word_after
has_once_lem args flag expected h = (
  (nat_eq.test_iff (count_of flag args) 1).0 (ground arith),
  is_word_lem _ expected (ground arith),
)

pub check_role-IsSide :
    (role : Role) (args : List String) → check_role role args ≡ ok tt → IsSide args role
unfolding check_role
check_role-IsSide server args h = at_server (ground (arith, require_lem _ _ tt h))
check_role-IsSide client args h =
    let (once, named) = has_once_lem args "-S" "10.0.0.1" (require_lem _ _ tt h) in
    at_client once named
check_role-IsSide anyone args h = at_both

supported_name :
    (args : List String) (name verb : String) → only_verb args (name ∷ []) ≡ ok verb → name ≡ verb
unfolding only_verb
supported_name args name verb h = ground arith

named_in : Bool → String → List String → List String
named_in true name names = name ∷ names
named_in false name names = names

chosen-IsNamed :
    (args : List String) (verb : String) (w r s : Bool)
    → contains args "write_bw" ≡ w
    → contains args "read_bw" ≡ r
    → contains args "send_bw" ≡ s
    → only_verb args (named_in w "write" (named_in r "read" (named_in s "send" []))) ≡ ok verb
    → IsNamed args verb
unfolding named_in only_verb
chosen-IsNamed args verb true false false w r s h =
    let e = supported_name args "write" verb h in
    subst (IsNamed args) e (record { named = w; only = (inl refl, (inr r, (inr s, tt))) })
chosen-IsNamed args verb false true false w r s h =
    let e = supported_name args "read" verb h in
    subst (IsNamed args) e (record { named = r; only = (inr w, (inl refl, (inr s, tt))) })
chosen-IsNamed args verb false false true w r s h =
    let e = supported_name args "send" verb h in
    subst (IsNamed args) e (record { named = s; only = (inr w, (inr r, (inl refl, tt))) })
chosen-IsNamed args verb true true s w r e h = absurd (cc)
chosen-IsNamed args verb true false true w r s h = absurd (cc)
chosen-IsNamed args verb false true true w r s h = absurd (cc)
chosen-IsNamed args verb false false false w r s h = absurd (cc)

verbs_in-named_in :
    (args : List String) (verb : String) (rest : List String)
    → verbs_in args (verb ∷ rest)
      ≡ named_in (contains args (verb <> "_bw")) verb (verbs_in args rest)
unfolding verbs_in named_in
verbs_in-named_in args verb rest = elim (Bool-cases (contains args (verb <> "_bw"))) [
  | inl there ↦ rw there refl
  | inr gone ↦ rw gone refl
]

pub only_verb-IsNamed :
    (args : List String) (verb : String)
    → only_verb args (verbs_in args ("write" ∷ "read" ∷ "send" ∷ [])) ≡ ok verb
    → IsNamed args verb
unfolding verbs_in
only_verb-IsNamed args verb h = chosen-IsNamed args verb _ _ _ refl refl refl (
    ap (only_verb args) (
      sym (
        verbs_in-named_in args "write" ("read" ∷ "send" ∷ [])
        ∙ ap (named_in (contains args "write_bw") "write") (
            verbs_in-named_in args "read" ("send" ∷ [])
            ∙ ap (named_in (contains args "read_bw") "read") (verbs_in-named_in args "send" []))))
    ∙ h)

pub flags_for-IsFlagged :
    (verb : String) (args : List String) → IsFlagged args verb (flags_for verb args)
unfolding flags_for
flags_for-IsFlagged verb args =
    elim (Bool-cases ((verb == "read" || verb == "send") || contains args "-R")) [
      | inl given ↦ rw given (posted refl)
      | inr left ↦ rw left (plain refl (ground arith) (ground arith) (ground arith))
    ]

pub value_of_flag_lem :
    (values : Dict String ℕ) (flag : String) (n : ℕ)
    → value_of_flag values flag ≡ ok n
    → lookup flag values ≡ some n
unfolding value_of_flag
value_of_flag_lem values flag n h = found (lookup flag values) h
  where
    found :
        (o : Option ℕ)
        → ◌≡◌ {A = Audited ℕ} (elim o [ none ↦ err flag | some value ↦ ok value ]) (ok n)
        → o ≡ some n
    found none e = cc
    found (some m) e = cc

ranged-IsRanged :
    (flag : String) (value : Option ℤ) → Ensures (λ n. IsRanged (flag, n)) (ranged flag value)
unfolding ranged
ranged-IsRanged flag none = Ensures-err _
ranged-IsRanged flag (some (negsuc n)) = Ensures-err _
ranged-IsRanged flag (some (pos n)) = record { holds = λ m h. ground arith }

-- A number in its range is the one behind the flag.
ranged-IsWorded :
    (args : List String) (flag : String)
    → Ensures (λ n. IsWorded args (flag, n)) (ranged flag (number_after flag args))
unfolding ranged number_after word_after
ranged-IsWorded args flag = worded (get_elem? args (index_of flag args + 1)) refl
  where
    worded :
        (o : Option String)
        → get_elem? args (index_of flag args + 1) ≡ o
        → Ensures
            (λ n. IsWorded args (flag, n))
            (ranged flag (elim o [ none ↦ none | some word ↦ int_of (codes word) ]))
    worded none e = Ensures-err _
    worded (some word) e = numbered word e (int_of (codes word)) refl
      where
        numbered :
            (word : String)
            → get_elem? args (index_of flag args + 1) ≡ some word
            → (value : Option ℤ) → int_of (codes word) ≡ value
            → Ensures (λ n. IsWorded args (flag, n)) (ranged flag value)
        numbered word e none k = Ensures-err _
        numbered word e (some (negsuc n)) k = Ensures-err _
        numbered word e (some (pos n)) k = record {
          holds = λ m h. record {
            word = word;
            behind = e;
            number = k ∙ ap (λ i. some (pos i)) (ground arith);
          };
        }

pub record IsRead (args flags : List String) (values : Dict String ℕ) : Type 0 where
  pub listed : keys values ≡ flags
  pub once : All (λ flag. count_of flag args ≡ 1) (keys values)
  pub ranges : All IsRanged values
  pub read : All (IsWorded args) values

pub flag_values-IsRead :
    (args flags : List String) → Ensures (IsRead args flags) (flag_values args flags)
unfolding flag_values
flag_values-IsRead args [] =
    Ensures-ok _ (record { listed = refl; once = tt; ranges = tt; read = tt })
flag_values-IsRead args (flag ∷ rest) = Ensures-bind _ _ λ u single. Ensures-bind _ _ λ value range.
    Ensures-bind _ _ λ others read.
      let more = (flag_values-IsRead args rest).holds others read in
      Ensures-ok _ (record {
        listed = ap (λ flags. flag ∷ flags) more.listed;
        once = ((nat_eq.test_iff (count_of flag args) 1).0 (require_lem _ _ u single), more.once);
        ranges = ((ranged-IsRanged flag (number_after flag args)).holds value range, more.ranges);
        read = ((ranged-IsWorded args flag).holds value range, more.read);
      })
