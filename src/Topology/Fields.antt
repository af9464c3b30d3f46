-- ===== src/Topology/Fields.antt =====
-- ubsim_lab/topology.py: `TopologyError` and the checks of one value (`_fields`, `_list`,
-- `_integer`, `_name`, `_choice`).
pub mod Laws
pub mod NoKeyError
use openurma_gem5_lab.Prelude.{
  ℕ, String, ◌<>◌, Bool, true, false, not, ◌&&◌, List, [], ◌∷◌, ◌==◌, nat_eq, string_eq, contains,
  all, ltb, if◌then◌else◌, none, some,
}
use openurma_gem5_lab.Prelude.Dict.{Dict, lookup, keys}
use openurma_gem5_lab.Prelude.Int.{pos}
use openurma_gem5_lab.Prelude.Text.{codes}
use openurma_gem5_lab.Prelude.Result.{Result, ok, err}
use openurma_gem5_lab.Json.{Json, num, str, arr, obj, items, members}

-- What leaves `compile_topology`: a `TopologyError` (its text, or the parts of a text that lists
-- sets), a `KeyError` of a subscript, or the `TypeError` of a value that cannot be hashed.
pub data Fault : Type 0 where
  topology_error : String → Fault
  bad_fields : String → List String → List String → Fault
  bad_integer : String → ℕ → Fault
  bad_choice : String → List String → Fault
  key_error : String → Fault
  type_error : Fault

abbrev pub Checked : Type 0 → Type 0
Checked A = Result Fault A

-- The names of one list that another lacks, in the order of the first.
unfoldable pub minus : List String → List String → List String
minus [] ys = []
minus (x ∷ xs) ys = let rest = minus xs ys in if contains ys x then rest else x ∷ rest

unfoldable pub is_empty : List String → Bool
is_empty [] = true
is_empty (x ∷ xs) = false

unfoldable pub fields : Json → List String → List String → String → Checked (Dict String Json)
fields (obj ms) allowed required place =
    let extra = minus (keys (members ms)) allowed in
    let missing = minus required (keys (members ms)) in
    if is_empty extra && is_empty missing
    then ok (members ms)
    else err (bad_fields place extra missing)
fields _ allowed required place = err (topology_error (place <> " must be an object"))

-- `d[key]`
unfoldable pub at : Dict String Json → String → Checked Json
at d key = elim (lookup key d) [ none ↦ err (key_error key) | some v ↦ ok v ]

-- `d.get(key, default)`
unfoldable pub get_or : Dict String Json → String → Json → Json
get_or d key default = elim (lookup key d) [ none ↦ default | some v ↦ v ]

-- `_list`
unfoldable pub list : Json → String → Checked (List Json)
list (arr vs) place = elim (items vs) [
  | [] ↦ err (topology_error (place <> " must be a non-empty array"))
  | v ∷ rest ↦ ok (v ∷ rest)
]
list _ place = err (topology_error (place <> " must be a non-empty array"))

-- `_integer`. Every caller's minimum is at least 0, so an accepted value is a natural number.
unfoldable pub integer : Json → String → ℕ → Checked ℕ
integer (num (pos n)) place minimum =
    if ltb n minimum then err (bad_integer place minimum) else ok n
integer _ place minimum = err (bad_integer place minimum)

abbrev allowed_characters : List ℕ
allowed_characters = codes "abcdefghijklmnopqrstuvwxyzABCDEFGHIJKLMNOPQRSTUVWXYZ0123456789_-"

unfoldable pub is_name : String → Bool
is_name value = not (value == "") && all (contains allowed_characters) (codes value)

-- `_name`
unfoldable pub name : Json → String → Checked String
name (str value) place =
    if is_name value
    then ok value
    else err (topology_error (place <> " must use letters, digits, '_' or '-'"))
name _ place = err (topology_error (place <> " must use letters, digits, '_' or '-'"))

-- `_choice`
unfoldable pub choice : Json → List String → String → Checked String
choice (str value) choices place =
    if contains choices value then ok value else err (bad_choice place choices)
choice _ choices place = err (bad_choice place choices)
