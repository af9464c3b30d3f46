-- ===== src/Topology/Fields/NoKeyError.antt =====
-- ubsim_lab/topology.py: code that raises no `KeyError`, one rule for each way to build code.
use openurma_gem5_lab.Prelude.{
  ℕ, String, ◌≡◌, refl, ◌≢◌, Bool, true, false, List, string_eq, contains, arith, if◌then◌else◌,
}
use openurma_gem5_lab.Prelude.Dict.{Dict, has, lookup_of_has}
use openurma_gem5_lab.Prelude.Int.{pos}
use openurma_gem5_lab.Prelude.Result.{ok, err, ◌>>=◌, raise_if}
use openurma_gem5_lab.Json.{Json, num, str, arr, obj}
use openurma_gem5_lab.Topology.Fields.{
  topology_error, key_error, type_error, Checked, fields, at, list, integer, name, choice,
}
use openurma_gem5_lab.Topology.Fields.Laws.{fields-has}

-- The result is no `KeyError`.
pub record NoKeyError {A : Type 0} (r : Checked A) : Type 0 where
  pub never : (k : String) → r ≢ err (key_error k)

module _ {A : Type 0} where
  pub NoKeyError-ok : (a : A) → NoKeyError (ok a)
  NoKeyError-ok a = record { never = λ k h. cc }

  pub NoKeyError-topology_error : (s : String) → NoKeyError {A = A} (err (topology_error s))
  NoKeyError-topology_error s = record { never = λ k h. cc }

  pub NoKeyError-type_error : NoKeyError {A = A} (err type_error)
  NoKeyError-type_error = record { never = λ k h. cc }

  pub NoKeyError-if :
      (b : Bool) (m n : Checked A)
      → (b ≡ true → NoKeyError m)
      → (b ≡ false → NoKeyError n)
      → NoKeyError (if b then m else n)
  NoKeyError-if true m n km kn = km refl
  NoKeyError-if false m n km kn = kn refl

  pub NoKeyError-bind :
      {B : Type 0} (m : Checked B) (f : B → Checked A)
      → NoKeyError m
      → ((b : B) → m ≡ ok b → NoKeyError (f b))
      → NoKeyError (m >>= f)
  unfolding ◌>>=◌
  NoKeyError-bind (ok b) f km kf = kf b refl
  NoKeyError-bind (err e) f km kf = record { never = λ k h. km.never k (cc) }

pub NoKeyError-raise_if : (b : Bool) (s : String) → NoKeyError (raise_if b (topology_error s))
NoKeyError-raise_if true s = NoKeyError-topology_error s
NoKeyError-raise_if false s = NoKeyError-ok tt

pub NoKeyError-at : (d : Dict String Json) (k : String) → has k d ≡ true → NoKeyError (at d k)
unfolding at
NoKeyError-at d k h = let (v, found) = lookup_of_has k d h in record { never = λ j e. ground arith }

pub NoKeyError-fields :
    (raw : Json) (allowed required : List String) (place : String)
    → NoKeyError (fields raw allowed required place)
unfolding fields
NoKeyError-fields (obj ms) allowed required place = record { never = λ j e. ground arith }
NoKeyError-fields _ allowed required place = record { never = λ j e. ground arith }

pub NoKeyError-list : (raw : Json) (place : String) → NoKeyError (list raw place)
unfolding list
NoKeyError-list (arr vs) place = record { never = λ j e. ground arith }
NoKeyError-list _ place = record { never = λ j e. ground arith }

pub NoKeyError-integer :
    (raw : Json) (place : String) (minimum : ℕ) → NoKeyError (integer raw place minimum)
unfolding integer
NoKeyError-integer (num (pos n)) place minimum = record { never = λ j e. ground arith }
NoKeyError-integer _ place minimum = record { never = λ j e. ground arith }

pub NoKeyError-name : (raw : Json) (place : String) → NoKeyError (name raw place)
unfolding name
NoKeyError-name (str v) place = record { never = λ j e. ground arith }
NoKeyError-name _ place = record { never = λ j e. ground arith }

pub NoKeyError-choice :
    (raw : Json) (choices : List String) (place : String) → NoKeyError (choice raw choices place)
unfolding choice
NoKeyError-choice (str v) choices place = record { never = λ j e. ground arith }
NoKeyError-choice _ choices place = record { never = λ j e. ground arith }

-- A required field of an accepted object can be read.
pub NoKeyError-field :
    (raw : Json) (allowed required : List String) (place : String) (d : Dict String Json)
    (k : String)
    → fields raw allowed required place ≡ ok d
    → contains required k ≡ true
    → NoKeyError (at d k)
NoKeyError-field raw allowed required place d k h r =
    NoKeyError-at d k (fields-has raw allowed required place k h r)

pub ruleset total_rules = (
  NoKeyError-ok, NoKeyError-topology_error, NoKeyError-if, NoKeyError-bind, NoKeyError-raise_if,
  NoKeyError-fields, NoKeyError-list, NoKeyError-integer, NoKeyError-name, NoKeyError-choice,
  NoKeyError-field,
)
