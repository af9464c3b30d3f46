-- ===== src/Experiments/Recipe.antt =====
-- ubsim_lab/experiments.py: `validate_recipe`.
use openurma_gem5_lab.Prelude.{
  ℕ, ◌+◌, ◌*◌, ◌/◌, ◌%◌, min, String, Bool, not, ◌&&◌, ◌||◌, List, [], ◌∷◌, ◌==◌, nat_eq, string_eq,
  list_eq, ltb, leb, if◌then◌else◌, Option, some, none, contains, any, length, map, has_repeat,
}
use openurma_gem5_lab.Prelude.Dict.{Dict, lookup, keys}
use openurma_gem5_lab.Prelude.Int.{pos}
use openurma_gem5_lab.Prelude.Result.{Result, ok, err, ◌>>=◌, ◌>>◌, raise_if}
use openurma_gem5_lab.Json.{Json, num, str, arr, obj, items, members}
use openurma_gem5_lab.Topology.Fields.{Fault, minus, is_empty}
use openurma_gem5_lab.Topology.Plan.{Plan, compile_topology}

pub record Recipe : Type 0 where
  pub operations : List String
  pub sizes : List ℕ
  pub jettys : List ℕ
  pub total_ops : ℕ
  pub warmups : ℕ
  pub repeats : ℕ
  pub depth : ℕ
  pub jfc_depth : ℕ
  pub post_list : ℕ
  pub timeout_s : ℕ

-- The `ValueError`s, by their message and what it names; `bad_spec` is any exception for a
-- specification whose devices cannot be read.
pub data RecipeError : Type 0 where
  wrong_fields : RecipeError
  wrong_list : String → ℕ → RecipeError
  unsupported_test : String → RecipeError
  wrong_integer : String → ℕ → ℕ → RecipeError
  wrong_size : RecipeError
  wrong_jettys : ℕ → RecipeError
  latency_jettys : RecipeError
  shallow_queue : RecipeError
  uneven_operations : ℕ → RecipeError
  shallow_jfc : ℕ → RecipeError
  too_many_runs : RecipeError
  bad_topology : Fault → RecipeError
  wrong_hosts : RecipeError
  bad_spec : RecipeError

-- `OPS`
abbrev pub ops : List String
ops = "read_bw" ∷ "write_bw" ∷ "read_lat" ∷ "write_lat" ∷ []

-- The keys of `DEFAULT_RECIPE`
abbrev pub recipe_fields : List String
recipe_fields =
    "operations" ∷ "sizes" ∷ "jettys" ∷ "total_ops" ∷ "warmups" ∷ "repeats" ∷ "depth" ∷ "jfc_depth"
    ∷ "post_list" ∷ "timeout_s" ∷ []

abbrev pub Valid : Type 0 → Type 0
Valid A = Result RecipeError A

-- The first check: a dict with exactly the known keys.
unfoldable pub recipe_dict : Json → Valid (Dict String Json)
recipe_dict (obj ms) =
    if is_empty (minus (keys (members ms)) recipe_fields)
      && is_empty (minus recipe_fields (keys (members ms)))
    then ok (members ms)
    else err wrong_fields
recipe_dict _ = err wrong_fields

-- `recipe[field]`, of a field that the first check has found
unfoldable pub field_of : Dict String Json → String → Valid Json
field_of recipe field = elim (lookup field recipe) [
  | none ↦ err wrong_fields
  | some value ↦ ok value
]

-- 1 to `maximum` values, distinct as texts.
unfoldable pub values_of : (Json → String) → String → ℕ → Json → Valid (List Json)
values_of text_of field maximum (arr vs) =
    if leb 1 (length (items vs))
      && leb (length (items vs)) maximum
      && not (has_repeat (map text_of (items vs)))
    then ok (items vs)
    else err (wrong_list field maximum)
values_of text_of field maximum _ = err (wrong_list field maximum)

-- `value in choices`, for each value
unfoldable pub tests_of : List Json → Valid (List String)
tests_of [] = ok []
tests_of (str test ∷ rest) = do
  raise_if (not (contains ops test)) (unsupported_test "operations")
  tests ← tests_of rest
  ok (test ∷ tests)
tests_of (_ ∷ rest) = err (unsupported_test "operations")

-- Integers within bounds, or an error.
unfoldable pub integer_in : ℕ → ℕ → RecipeError → Json → Valid ℕ
integer_in low high e (num (pos n)) = if leb low n && leb n high then ok n else err e
integer_in low high e _ = err e

unfoldable pub integers_in : ℕ → ℕ → RecipeError → List Json → Valid (List ℕ)
unfolding integer_in
integers_in low high e [] = ok []
integers_in low high e (value ∷ rest) = do
  n ← integer_in low high e value
  ns ← integers_in low high e rest
  ok (n ∷ ns)

-- `integer(name, low, high)`
unfoldable pub integer_field : Dict String Json → String → ℕ → ℕ → Valid ℕ
unfolding field_of
integer_field recipe name low high = do
  value ← field_of recipe name
  integer_in low high (wrong_integer name low high) value

-- `device.get("max_jettys", 47)` and `device["ports"]`
unfoldable pub device_number : String → Option ℕ → Json → Valid ℕ
device_number key default (obj ms) = elim (lookup key (members ms)) [
  | some (num (pos n)) ↦ ok n
  | some _ ↦ err bad_spec
  | none ↦ elim default [ some n ↦ ok n | none ↦ err bad_spec ]
]
device_number key default _ = err bad_spec

unfoldable pub device_numbers : String → Option ℕ → List Json → Valid (List ℕ)
unfolding device_number
device_numbers key default [] = ok []
device_numbers key default (device ∷ rest) = do
  n ← device_number key default device
  ns ← device_numbers key default rest
  ok (n ∷ ns)

-- `spec["devices"]`
unfoldable pub devices_of : Json → Valid (List Json)
devices_of (obj ms) = elim (lookup "devices" (members ms)) [
  | some (arr vs) ↦ ok (items vs)
  | some _ ↦ err bad_spec
  | none ↦ err bad_spec
]
devices_of _ = err bad_spec

unfoldable pub least_from : ℕ → List ℕ → ℕ
least_from n [] = n
least_from n (m ∷ rest) = least_from (min n m) rest

unfoldable pub least : List ℕ → Valid ℕ
unfolding least_from
least [] = err bad_spec
least (n ∷ rest) = ok (least_from n rest)

-- `op.endswith("_lat")`, of a supported test
unfoldable pub is_latency : String → Bool
is_latency op = op == "read_lat" || op == "write_lat"

-- The loop over `recipe["jettys"]`.
unfoldable pub check_jettys : ℕ → ℕ → ℕ → ℕ → List ℕ → Valid (Unit {0})
check_jettys total depth jfc post [] = ok tt
check_jettys total depth jfc post (j ∷ rest) = do
  raise_if (not (total % j == 0) || ltb (total / j) post) (uneven_operations j)
  raise_if (ltb jfc (j * min depth (total / j))) (shallow_jfc j)
  check_jettys total depth jfc post rest

-- The number of runs.
unfoldable pub runs_of : Recipe → ℕ
runs_of r = length r.operations * length r.sizes * length r.jettys * (r.warmups + r.repeats)

-- `compile_topology(spec)`, with its `TopologyError`, which is a `ValueError`
unfoldable pub compiled : Json → Valid Plan
compiled spec = elim (compile_topology spec) [ ok plan ↦ ok plan | err e ↦ err (bad_topology e) ]

unfoldable pub validate_recipe : (Json → String) → Json → Json → Valid Recipe
unfolding field_of devices_of least compiled
validate_recipe text_of raw spec = do
  recipe ← recipe_dict raw
  raw_operations ← field_of recipe "operations"
  operation_values ← values_of text_of "operations" 4 raw_operations
  operations ← tests_of operation_values
  raw_sizes ← field_of recipe "sizes"
  size_values ← values_of text_of "sizes" 24 raw_sizes
  raw_jettys ← field_of recipe "jettys"
  jetty_values ← values_of text_of "jettys" 12 raw_jettys
  sizes ← integers_in 1 (10 * 1024 * 1024) wrong_size size_values
  devices ← devices_of spec
  limits ← device_numbers "max_jettys" (some 47) devices
  max_jettys ← least limits
  jettys ← integers_in 1 max_jettys (wrong_jettys max_jettys) jetty_values
  raise_if (any is_latency operations && not (jettys == 1 ∷ [])) latency_jettys
  total ← integer_field recipe "total_ops" 256 1000000
  warmups ← integer_field recipe "warmups" 0 5
  repeats ← integer_field recipe "repeats" 1 10
  depth ← integer_field recipe "depth" 1 8192
  jfc ← integer_field recipe "jfc_depth" 1 2097152
  post ← integer_field recipe "post_list" 1 256
  timeout ← integer_field recipe "timeout_s" 10 7200
  raise_if (ltb depth post) shallow_queue
  check_jettys total depth jfc post jettys
  let result : Recipe = record {
    operations = operations;
    sizes = sizes;
    jettys = jettys;
    total_ops = total;
    warmups = warmups;
    repeats = repeats;
    depth = depth;
    jfc_depth = jfc;
    post_list = post;
    timeout_s = timeout;
  }
  raise_if (ltb 120 (runs_of result)) too_many_runs
  plan ← compiled spec
  ports ← device_numbers "ports" none devices
  raise_if (not (length plan.node_ids == 2) || any (λ n. not (n == 1)) ports) wrong_hosts
  ok result
