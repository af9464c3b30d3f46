-- ===== src/Topology/Machine.antt =====
-- ubsim_lab/topology.py: the `machine` object and the switch.
pub mod Total
pub mod Named
use openurma_gem5_lab.Prelude.{
  ℕ, String, Bool, false, not, List, [], ◌∷◌, ◌==◌, string_eq, ltb, Option, none, some,
  if◌then◌else◌,
}
use openurma_gem5_lab.Prelude.Dict.{Dict, has}
use openurma_gem5_lab.Prelude.Result.{ok, err, ◌>>=◌, ◌>>◌, raise_if}
use openurma_gem5_lab.Json.{Json, str}
use openurma_gem5_lab.Topology.Fields.{topology_error, Checked, fields, at, integer, name, choice}
use openurma_gem5_lab.Topology.Nodes.{Simulator, gem5, simulator_eq}

-- An optional integer field within bounds.
optional_integer : Dict String Json → String → String → ℕ → ℕ → String → Checked (Unit {0})
optional_integer machine field place minimum maximum text =
    if has field machine
    then (do
      raw ← at machine field
      value ← integer raw place minimum
      raise_if (ltb maximum value) (topology_error text))
    else ok tt

optional_prefetcher : Dict String Json → Checked (Unit {0})
optional_prefetcher machine =
    if has "l1d_prefetcher" machine
    then (do
      raw ← at machine "l1d_prefetcher"
      choice raw
          ("none" ∷ "stride" ∷ "stride_exclusive" ∷ "stride_exclusive_d4" ∷ "stride_exclusive_xpage"
            ∷ [])
          "machine.l1d_prefetcher"
      ok tt)
    else ok tt

abbrev machine_fields : List String
machine_fields = "o3_lq_entries" ∷ "o3_sq_entries" ∷ "l1d_prefetcher" ∷ "memory_size_gb" ∷ []

-- `spec["machine"]`, or an empty dict
unfoldable pub read_machine : Dict String Json → Simulator → Checked (Dict String Json)
unfolding optional_integer optional_prefetcher
read_machine spec simulator =
    if has "machine" spec
    then (do
      raise_if (not (simulator == gem5))
          (topology_error "machine CPU tuning is currently supported only for gem5")
      raw ← at spec "machine"
      machine ← fields raw machine_fields [] "machine"
      optional_integer machine "memory_size_gb" "machine.memory_size_gb" 4 128
          "machine.memory_size_gb exceeds 128"
      optional_integer machine "o3_lq_entries" "machine.o3_lq_entries" 1 1024
          "machine.o3_lq_entries exceeds gem5 launcher limit"
      optional_integer machine "o3_sq_entries" "machine.o3_sq_entries" 1 1024
          "machine.o3_sq_entries exceeds gem5 launcher limit"
      optional_prefetcher machine
      ok machine)
    else ok []

-- `switch_name` and `switch_delay` of the one switch
pub record Switch : Type 0 where
  pub id : String
  pub delay : ℕ

is_text : Json → String → Bool
is_text (str value) text = value == text
is_text _ text = false

read_one_switch : Json → Checked (Option Switch)
unfolding is_text
read_one_switch raw = do
  switch ←
      fields raw ("id" ∷ "type" ∷ "delay_ns" ∷ []) ("id" ∷ "type" ∷ "delay_ns" ∷ []) "switches[0]"
  raw_id ← at switch "id"
  id ← name raw_id "switches[0].id"
  kind ← at switch "type"
  raise_if (not (is_text kind "ns3ub")) (topology_error "switches[0].type must be ns3ub")
  raw_delay ← at switch "delay_ns"
  delay ← integer raw_delay "switches[0].delay_ns" 0
  ok (some (record { id = id; delay = delay }))

-- `none` is a direct link.
unfoldable pub read_switch : List Json → Checked (Option Switch)
unfolding read_one_switch
read_switch [] = ok none
read_switch (raw ∷ []) = read_one_switch raw
read_switch _ = err (topology_error "current ns-3 adapter supports at most one switch")
