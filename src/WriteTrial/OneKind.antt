-- ===== src/WriteTrial/OneKind.antt =====
-- tools/check_qemu_write_trial.py: the cases of an accepted report are of one kind.
use openurma_gem5_lab.Prelude.{
  ℕ, ◌≡◌, refl, sym, ap, ◌∙◌, String, ◌<>◌, Bool, true, false, not, List, [], ◌∷◌, map, length,
  Option, some, none, All, Distinct, Distinct-snoc, ◌==◌, nat_eq, string_eq, arith, if◌then◌else◌,
}
use mathlib.Core.Path.{subst}
use openurma_gem5_lab.Prelude.Text.{str}
use openurma_gem5_lab.Prelude.Result.{ok, Ensures, Ensures-bind, Ensures-ok}
use openurma_gem5_lab.WriteTrial.Command.{Audited}
use openurma_gem5_lab.WriteTrial.Flags.{require_lem}
use openurma_gem5_lab.WriteTrial.Records.{
  TrialRecord, Workload, Auditing, same_bool, agrees, is_workload, audit_workload, other_record,
  audit_record, audit_records, audit_report,
}
use openurma_gem5_lab.WriteTrial.Labels.{
  label_of, IsOneKind, map-append, All-snoc, Distinct-images, labels_one_verb,
}

-- A variable that is set once is not changed.
agrees_kept :
    {A : Type 0} (same : A → A → Bool) (sound : (a b : A) → same a b ≡ true → a ≡ b) (o : Option A)
    (value a : A)
    → agrees same o value ≡ true
    → o ≡ some a
    → some value ≡ some a
unfolding agrees
agrees_kept same sound none value a h e = cc
agrees_kept same sound (some trial) value a h e = ap some (sound value trial h) ∙ e

same_bool_lem : (a b : Bool) → same_bool a b ≡ true → a ≡ b
unfolding same_bool
same_bool_lem true b h = sym h
same_bool_lem false true h = cc
same_bool_lem false false h = refl

abbrev same_text : String → String → Bool
same_text a b = a == b

-- The verb is the requested one.
IsAsked : Option String → Option String → Type 0
IsAsked none t = Unit
IsAsked (some v) t = t ≡ some v

abbrev IsAlike : Option String → Option Bool → Workload → Type 0
IsAlike verb bidirectional c = (verb ≡ some c.verb) × (bidirectional ≡ some c.bidirectional)

record IsOne (requested : Option String) (s : Auditing) : Type 0 where
  labels : s.seen ≡ map label_of s.cases
  distinct : Distinct s.seen
  alike : All (IsAlike s.trial_verb s.trial_bidirectional) s.cases
  asked : IsAsked requested s.trial_verb

IsAlike-next :
    (trial_verb : Option String) (trial_bidirectional : Option Bool) (verb : String)
    (bidirectional : Bool) (cases : List Workload)
    → agrees same_text trial_verb verb ≡ true
    → agrees same_bool trial_bidirectional bidirectional ≡ true
    → All (IsAlike trial_verb trial_bidirectional) cases
    → All (IsAlike (some verb) (some bidirectional)) cases
IsAlike-next v b verb bidirectional [] hv hb h = tt
IsAlike-next v b verb bidirectional (c ∷ cases) hv hb ((one, two), h) = (
  (
    agrees_kept same_text (λ x y. (string_eq.test_iff x y).0) v verb c.verb hv one,
    agrees_kept same_bool same_bool_lem b bidirectional c.bidirectional hb two,
  ),
  IsAlike-next v b verb bidirectional cases hv hb h,
)

IsAsked-next :
    (requested trial_verb : Option String) (verb : String)
    → agrees same_text trial_verb verb ≡ true
    → IsAsked requested trial_verb
    → IsAsked requested (some verb)
unfolding IsAsked
IsAsked-next none t verb h a = tt
IsAsked-next (some v) t verb h a =
    agrees_kept same_text (λ x y. (string_eq.test_iff x y).0) t verb v h a

module _ (split : String → Audited (List String)) (is_decimal : ℕ → Bool) where
  audit_workload-IsOne :
      (requested : Option String) (s : Auditing) (r : TrialRecord)
      → IsOne requested s
      → Ensures (IsOne requested) (audit_workload split is_decimal s r)
  unfolding audit_workload
  audit_workload-IsOne requested s r one = Ensures-bind _ _ λ u fresh. Ensures-bind _ _ λ _ _.
      Ensures-bind _ _ λ _ _. Ensures-bind _ _ λ _ _. Ensures-bind _ _ λ config _.
        Ensures-bind _ _ λ v same_verb. Ensures-bind _ _ λ w same_way. Ensures-bind _ _ λ size _.
          Ensures-bind _ _ λ count _. Ensures-bind _ _ λ x label.
            let kept = require_lem _ _ v same_verb in
            let way = require_lem _ _ w same_way in
            let c : Workload = record {
              verb = config.verb;
              bidirectional = config.bidirectional;
              size = size;
              count = count;
            } in
            let named = (string_eq.test_iff r.label (label_of c)).0 (require_lem _ _ x label) in
            Ensures-ok _ (record {
              labels = cc (one.labels, map-append label_of s.cases (c ∷ []), named);
              distinct =
                  Distinct-snoc s.seen r.label (ground (arith, require_lem _ _ u fresh))
                    one.distinct;
              alike =
                  All-snoc _ s.cases c
                    (IsAlike-next s.trial_verb s.trial_bidirectional config.verb
                      config.bidirectional s.cases kept way one.alike)
                    (refl, refl);
              asked = IsAsked-next requested s.trial_verb config.verb kept one.asked;
            })

  audit_record-IsOne :
      (requested : Option String) (s : Auditing) (r : TrialRecord)
      → IsOne requested s
      → Ensures (IsOne requested) (audit_record split is_decimal s r)
  unfolding audit_record other_record
  audit_record-IsOne requested s r one =
      elim (is_workload r.label)
        as (λ b.
          Ensures (IsOne requested) (
            if b then audit_workload split is_decimal s r else other_record split is_decimal s r)) [
              | true ↦ audit_workload-IsOne requested s r one
              | false ↦ Ensures-bind _ _ λ _ _. Ensures-ok s one
            ]

  audit_records-IsOne :
      (requested : Option String) (s : Auditing) (records : List TrialRecord)
      → IsOne requested s
      → Ensures (IsOne requested) (audit_records split is_decimal s records)
  unfolding audit_records
  audit_records-IsOne requested s [] one = Ensures-ok s one
  audit_records-IsOne requested s (r ∷ records) one = Ensures-bind _ _ λ next step.
      audit_records-IsOne requested next records
        ((audit_record-IsOne requested s r one).holds next step)

some_injective : {A : Type 0} (a b : A) → some a ≡ some b → a ≡ b
some_injective a b h = cc

alike_first :
    (verb : String) (bidirectional : Bool) (trial_verb : Option String)
    (trial_bidirectional : Option Bool) (cases : List Workload)
    → trial_verb ≡ some verb
    → trial_bidirectional ≡ some bidirectional
    → All (IsAlike trial_verb trial_bidirectional) cases
    → All (λ c. (c.verb ≡ verb) × (c.bidirectional ≡ bidirectional)) cases
alike_first verb bidirectional v b [] hv hb h = tt
alike_first verb bidirectional v b (c ∷ cases) hv hb ((one, two), h) = (
  (some_injective _ _ (sym one ∙ hv), some_injective _ _ (sym two ∙ hb)),
  alike_first verb bidirectional v b cases hv hb h,
)

asked_lem :
    (requested trial_verb : Option String) (verb : String)
    → IsAsked requested trial_verb
    → trial_verb ≡ some verb
    → agrees same_text requested verb ≡ true
unfolding IsAsked agrees
asked_lem none t verb a h = refl
asked_lem (some v) t verb a h = (string_eq.test_iff verb v).1 (some_injective _ _ (sym h ∙ a))

IsOne-IsOneKind :
    (requested : Option String) (s : Auditing) (cases : List Workload)
    → s.cases ≡ cases
    → not (length cases == 0) ≡ true
    → IsOne requested s
    → IsOneKind requested cases
IsOne-IsOneKind requested s [] same h one = cc
IsOne-IsOneKind requested s (c ∷ rest) same h one =
    let alike : All (IsAlike s.trial_verb s.trial_bidirectional) (c ∷ rest) =
      subst (All (IsAlike s.trial_verb s.trial_bidirectional)) same one.alike in
    let kind =
      alike_first c.verb c.bidirectional s.trial_verb s.trial_bidirectional (c ∷ rest) alike.0.0
        alike.0.1 alike in
    let labels =
      one.labels
      ∙ ap (map label_of) same
      ∙ labels_one_verb c.verb c.bidirectional (c ∷ rest) kind in
    record {
      verb = c.verb;
      bidirectional = c.bidirectional;
      asked = asked_lem requested s.trial_verb c.verb one.asked alike.0.0;
      alike = kind;
      sizes =
          Distinct-images (λ n. c.verb <> "-" <> str n) (map (λ (d : Workload). d.size) (c ∷ rest))
            (subst Distinct labels one.distinct);
      some_cases = cc;
    }

-- If the audit accepts the records of a report, then there is a case; all cases have one verb, which is
-- the requested one if one was requested, and one direction; and no size is measured twice.
pub audit_report-IsOneKind :
    (split : String → Audited (List String)) (is_decimal : ℕ → Bool) (requested : Option String)
    (records : List TrialRecord) (s : Auditing)
    → audit_report split is_decimal requested records ≡ ok s
    → IsOneKind requested s.cases
unfolding audit_report IsAsked
audit_report-IsOneKind split is_decimal requested records s h =
    (Ensures-bind {P = λ s. IsOneKind requested s.cases} _ _ λ _ _. Ensures-bind _ _ λ t loop.
        Ensures-bind _ _ λ u has_some. Ensures-ok t (
          IsOne-IsOneKind requested t t.cases refl (require_lem _ _ u has_some) (
            (audit_records-IsOne split is_decimal requested
                (record {
                  seen = [];
                  trial_verb = requested;
                  trial_bidirectional = none;
                  cases = [];
                })
                records
                (record {
                  labels = refl;
                  distinct = tt;
                  alike = tt;
                  asked = start requested;
                })).holds
              t loop))).holds
      s h
  where
    start : (requested : Option String) → IsAsked requested requested
    start none = tt
    start (some v) = refl
