-- ===== src/Topology/Fields/Laws.antt =====
-- ubsim_lab/topology.py: what an accepted value satisfies.
use openurma_gem5_lab.Prelude.{
  ℕ, ◌≤◌, String, ◌≡◌, refl, true, List, [], ◌∷◌, nat_eq, string_eq, eq_iff, contains, arith,
}
use openurma_gem5_lab.Prelude.Dict.{Dict, has, keys}
use openurma_gem5_lab.Prelude.Int.{pos, negsuc}
use openurma_gem5_lab.Prelude.Result.{ok}
use openurma_gem5_lab.Json.{Json, null, bool, num, float, str, arr, obj, members}
use openurma_gem5_lab.Topology.Fields.{minus, is_empty, fields, integer, is_name, name, choice}

has-contains : (k : String) (d : Dict String Json) → contains (keys d) k ≡ has k d
unfolding has
has-contains k [] = refl
has-contains k ((j, v) ∷ d) = ground (arith, has-contains k d)

minus-none :
    (xs ys : List String) (k : String)
    → is_empty (minus xs ys) ≡ true
    → contains xs k ≡ true
    → contains ys k ≡ true
unfolding minus is_empty
minus-none [] ys k e h = cc
minus-none (x ∷ xs) ys k e h = ground (arith, minus-none xs ys k, eq_iff x k)

-- An accepted object has every required field.
pub fields-has :
    (raw : Json) (allowed required : List String) (place : String) {d : Dict String Json}
    (k : String)
    → fields raw allowed required place ≡ ok d
    → contains required k ≡ true
    → has k d ≡ true
unfolding fields
fields-has (obj ms) allowed required place k h r =
    ground (arith, has-contains k (members ms), minus-none required (keys (members ms)) k)
fields-has null allowed required place k h r = cc
fields-has (bool b) allowed required place k h r = cc
fields-has (num n) allowed required place k h r = cc
fields-has (float n) allowed required place k h r = cc
fields-has (str n) allowed required place k h r = cc
fields-has (arr n) allowed required place k h r = cc

-- An accepted integer is at least the minimum.
pub integer-ge :
    (raw : Json) (place : String) (minimum : ℕ) {n : ℕ}
    → integer raw place minimum ≡ ok n
    → minimum ≤ n
unfolding integer
integer-ge (num (pos m)) place minimum h = ground arith
integer-ge (num (negsuc m)) place minimum h = cc
integer-ge null place minimum h = cc
integer-ge (bool b) place minimum h = cc
integer-ge (float n) place minimum h = cc
integer-ge (str n) place minimum h = cc
integer-ge (arr n) place minimum h = cc
integer-ge (obj n) place minimum h = cc

pub name-is_name :
    (raw : Json) (place : String) {s : String} → name raw place ≡ ok s → is_name s ≡ true
unfolding name
name-is_name (str v) place h = ground arith
name-is_name null place h = cc
name-is_name (bool b) place h = cc
name-is_name (num n) place h = cc
name-is_name (float n) place h = cc
name-is_name (arr n) place h = cc
name-is_name (obj n) place h = cc

pub choice-contains :
    (raw : Json) (choices : List String) (place : String) {s : String}
    → choice raw choices place ≡ ok s
    → contains choices s ≡ true
unfolding choice
choice-contains (str v) choices place h = ground arith
choice-contains null choices place h = cc
choice-contains (bool b) choices place h = cc
choice-contains (num n) choices place h = cc
choice-contains (float n) choices place h = cc
choice-contains (arr n) choices place h = cc
choice-contains (obj n) choices place h = cc
