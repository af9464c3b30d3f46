-- ===== src/RmaRegression/Fences/Complete.antt =====
-- tools/run_modular_rma_regression.py: what fences without an error say.
use openurma_gem5_lab.Prelude.{
  ℕ, ◌%◌, ◌<◌, ◌≡◌, ◌≢◌, refl, ap, ◌∙◌, String, ◌<>◌, Bool, true, false, not, ◌||◌, List, [], ◌∷◌,
  ◌++◌, length, some, All, ◌==◌, nat_eq, string_eq, list_eq, pair_eq, arith, ltb→lt,
}
use mathlib.Core.Path.{subst}
use openurma_gem5_lab.Prelude.Dict.{Dict}
use openurma_gem5_lab.RmaRegression.Fences.{
  FenceLine, FenceSequence, participants, sequence_of, line_errors, alternates, increases, error_if,
  sequence_errors, reference_errors, reference_after, lines_of, validate_from, validate_fences,
}

-- The fences of rounds, each of which enters at one generation and leaves at another.
unfoldable pub fences_of : List (ℕ × ℕ) → FenceSequence
fences_of [] = []
fences_of ((enter, leave) ∷ rounds) = (enter, 1) ∷ (leave, 0) ∷ fences_of rounds

-- Each generation is less than all behind it.
unfoldable pub IsRising : FenceSequence → Type 0
IsRising [] = Unit
IsRising (a ∷ rest) = All (λ b. a.0 < b.0) rest × IsRising rest

-- All participants have the same rounds.
pub record AreComplete (logs : Dict String (List FenceLine)) : Type 0 where
  pub rounds : List (ℕ × ℕ)
  pub some_rounds : rounds ≢ []
  pub shared : All (λ name. sequence_of (lines_of logs name) ≡ fences_of rounds) participants
  pub rising : IsRising (fences_of rounds)

append-nil {ℓ} : {A : Type ℓ} (xs ys : List A) → xs ++ ys ≡ [] → (xs ≡ []) × (ys ≡ [])
append-nil [] ys h = (refl, h)
append-nil (x ∷ xs) ys h = cc

error_if_lem : (b : Bool) (text : String) → error_if b text ≡ [] → b ≡ false
error_if_lem true text h = cc
error_if_lem false text h = refl

record IsWhole (sequence : FenceSequence) : Type 0 where
  paired : (length sequence == 0 || not (length sequence % 2 == 0)) ≡ false
  alternating : alternates true sequence ≡ true
  increasing : increases sequence ≡ true

not-false : (b : Bool) → not b ≡ false → b ≡ true
not-false true h = refl
not-false false h = cc

sequence_errors-IsWhole :
    (name : String) (sequence : FenceSequence)
    → sequence_errors name sequence ≡ []
    → IsWhole sequence
unfolding sequence_errors
sequence_errors-IsWhole name sequence h =
    let (first, rest) = append-nil _ _ h in
    let (one, two) =
      append-nil (error_if (length sequence == 0 || not (length sequence % 2 == 0)) _)
        (error_if (not (alternates true sequence)) _) first in
    record {
      paired = error_if_lem _ _ one;
      alternating = not-false _ (error_if_lem _ _ two);
      increasing = not-false _ (error_if_lem _ _ rest);
    }

rounds_of :
    (sequence : FenceSequence)
    → alternates true sequence ≡ true
    → length sequence % 2 ≡ 0
    → (rounds : List (ℕ × ℕ)) × (sequence ≡ fences_of rounds)
unfolding alternates fences_of
rounds_of [] h even = ([], refl)
rounds_of (a ∷ []) h even = ([], ground arith)
rounds_of ((enter, a) ∷ (leave, b) ∷ rest) h even =
    let (rounds, same) = rounds_of rest (ground arith) (omega arith) in
    let one : a ≡ 1 = ground (arith, nat_eq.test_iff a 1) in
    let none : b ≡ 0 = ground (arith, nat_eq.test_iff b 0) in ((enter, leave) ∷ rounds, cc)

above :
    (a b : ℕ × ℕ) (rest : FenceSequence)
    → a.0 < b.0
    → All (λ c. b.0 < c.0) rest
    → All (λ c. a.0 < c.0) rest
above a b [] h all = tt
above a b (c ∷ rest) h (less, all) = (omega arith, above a b rest h all)

increases-IsRising : (sequence : FenceSequence) → increases sequence ≡ true → IsRising sequence
unfolding increases IsRising
increases-IsRising [] h = tt
increases-IsRising (a ∷ []) h = (tt, tt)
increases-IsRising (a ∷ b ∷ rest) h =
    let more = increases-IsRising (b ∷ rest) (ground arith) in
    let less : a.0 < b.0 = ltb→lt a.0 b.0 (ground arith) in
    ((less, above a b rest less more.0), more)

-- What the loop has shown of a participant, when there is no error.
shared_from :
    (logs : Dict String (List FenceLine)) (reference : FenceSequence) (names : List String)
    → validate_from logs (some reference) names ≡ []
    → All (λ name. sequence_of (lines_of logs name) ≡ reference) names
unfolding validate_from reference_errors reference_after
shared_from logs reference [] h = tt
shared_from logs reference (name ∷ names) h =
    let sequence = sequence_of (lines_of logs name) in
    let (first, rest) = append-nil _ (validate_from logs (some reference) names) h in
    let (_, differ) =
      append-nil _
        (error_if (not (sequence == reference))
          (name <> ": fence generations/targets differ between participants"))
        first in
    (
      (list_eq.test_iff sequence reference).0 (not-false _ (error_if_lem _ _ differ)),
      shared_from logs reference names rest,
    )

fences_of-nonempty :
    (s : FenceSequence) → (length s == 0 || not (length s % 2 == 0)) ≡ false → s ≢ fences_of []
unfolding fences_of
fences_of-nonempty [] h = cc
fences_of-nonempty (a ∷ s) h = cc

AreComplete-rounds :
    (logs : Dict String (List FenceLine)) (sequence : FenceSequence)
    → IsWhole sequence
    → All (λ name. sequence_of (lines_of logs name) ≡ sequence) participants
    → AreComplete logs
AreComplete-rounds logs sequence whole shared =
    let (rounds, same) =
      rounds_of sequence whole.alternating
        (ground (arith, whole.paired, nat_eq.test_iff (length sequence % 2) 0)) in
    record {
      rounds = rounds;
      some_rounds = λ none. fences_of-nonempty sequence whole.paired (same ∙ ap fences_of none);
      shared =
          subst (λ fences. All (λ name. sequence_of (lines_of logs name) ≡ fences) participants)
            same shared;
      rising = subst IsRising same (increases-IsRising sequence whole.increasing);
    }

-- If `validate_fences` finds no error, then all five participants have the same fences: those of one or
-- more rounds, each an entry and a leaving, with generations that increase throughout.
pub validate_fences-AreComplete :
    (logs : Dict String (List FenceLine)) → validate_fences logs ≡ [] → AreComplete logs
unfolding validate_fences validate_from reference_errors reference_after
validate_fences-AreComplete logs h =
    let sequence = sequence_of (lines_of logs "host0") in
    let (first, rest) =
      append-nil _
        (validate_from logs (some sequence) ("host1" ∷ "udma0" ∷ "udma1" ∷ "network" ∷ [])) h in
    let (second, _) =
      append-nil (line_errors "host0" (lines_of logs "host0") ++ sequence_errors "host0" sequence)
        [] first in
    let (_, own) =
      append-nil (line_errors "host0" (lines_of logs "host0")) (sequence_errors "host0" sequence)
        second in
    AreComplete-rounds logs sequence (sequence_errors-IsWhole "host0" sequence own)
      (refl, shared_from logs sequence ("host1" ∷ "udma0" ∷ "udma1" ∷ "network" ∷ []) rest)
