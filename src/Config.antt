-- ===== src/Config.antt =====
-- ubsim_lab/config_runtime.py: `resolve_gem5`, the settings of a gem5 run from its launch plan.
pub mod Links
pub mod PerNode
pub mod Update
pub mod Resolved
pub mod Launch
use openurma_gem5_lab.Prelude.{
  ℕ, zero, suc, ◌-◌, min, String, ◌<>◌, Bool, true, false, not, ◌&&◌, List, [], ◌∷◌, ◌==◌, nat_eq,
  string_eq, if◌then◌else◌, Option, some, none, length,
}
use openurma_gem5_lab.Prelude.Dict.{Dict, lookup, insert, erase}
use openurma_gem5_lab.Prelude.Text.{str}
use openurma_gem5_lab.Prelude.Result.{Result, ok, err, ◌>>=◌, ◌>>◌, raise_if}
use openurma_gem5_lab.Topology.Nodes.{Simulator, gem5, simulator_eq}
use openurma_gem5_lab.Topology.Links.{NodeLink}
use openurma_gem5_lab.Topology.Plan.{Plan}

-- The optional machine settings of a specification that `compile_topology` accepts.
pub record MachineSpec : Type 0 where
  pub memory_size_gb : Option ℕ
  pub o3_lq_entries : Option ℕ
  pub o3_sq_entries : Option ℕ
  pub l1d_prefetcher : Option String

-- What the function reads of such a specification.
pub record Spec : Type 0 where
  pub profile : String
  pub sync : String
  pub machine : MachineSpec

pub data ConfigError : Type 0 where
  not_gem5 : ConfigError
  no_links : ConfigError
  missing : String → ConfigError

abbrev pub Values : Type 0
Values = Dict String String

-- `PROFILE_DEFAULTS[profile]`
unfoldable pub profile_values : Dict String Values → String → Result ConfigError Values
profile_values defaults profile = elim (lookup profile defaults) [
  | none ↦ err (missing profile)
  | some values ↦ ok values
]

-- `min(link["latency_ns"] for link in links)`
unfoldable pub min_latency_from : ℕ → List NodeLink → ℕ
min_latency_from least [] = least
min_latency_from least (link ∷ rest) = min_latency_from (min least link.latency_ns) rest

unfoldable pub min_latency : List NodeLink → Result ConfigError ℕ
unfolding min_latency_from
min_latency [] = err no_links
min_latency (link ∷ rest) = ok (min_latency_from link.latency_ns rest)

-- `links[0]["rate_gbps"]`
unfoldable pub first_rate : List NodeLink → Result ConfigError ℕ
first_rate [] = err no_links
first_rate (link ∷ rest) = ok link.rate_gbps

unfoldable pub quantum_of : String → ℕ → ℕ
quantum_of profile latency = if profile == "modern" then min 100 latency else latency

unfoldable pub memory_of : MachineSpec → String
memory_of machine = elim machine.memory_size_gb [ none ↦ "32GB" | some size ↦ str size <> "GB" ]

unfoldable pub initrd_of : String → String → String
initrd_of profile memory =
    if profile == "modern" && memory == "4GB"
    then "out/official-udma-64k-node-template-20261021.cpio.gz"
    else "out/official-udma-64k-20261015.cpio.gz"

-- The value of `public_jettys`
unfoldable pub public_jettys : Bool → Values → Result ConfigError String
public_jettys true values = ok "1"
public_jettys false values = elim (lookup "public_jettys" values) [
  | none ↦ err (missing "public_jettys")
  | some v ↦ ok v
]

-- `values.update(...)`
unfoldable pub update : Values → List (String × String) → Values
update values [] = values
update values ((key, value) ∷ rest) = update (insert key value values) rest

-- The settings of every run; `root` is `ROOT` with a slash.
abbrev pub common : String → Spec → Plan → ℕ → ℕ → String → List (String × String)
common root spec plan latency rate jettys =
    let required = spec.sync == "required" in
    let quantum = quantum_of spec.profile latency in
    let memory = memory_of spec.machine in
    ("initrd_path", root <> initrd_of spec.profile memory)
    ∷ ("execution_mode", "native")
    ∷ ("node_count", str (length plan.node_ids))
    ∷ ("memory_size", memory)
    ∷ ("peer_latency_ns", str latency)
    ∷ ("sync_quantum_ns", str quantum)
    ∷ ("external_udma_host_latency_ns", str quantum)
    ∷ ("sync_request", if required then "roi" else "off")
    ∷ ("virtual_time_synchronization", if required then "lifecycle" else "disabled")
    ∷ ("lifecycle_sync", if required then "1" else "0")
    ∷ ("restore_checkpoint", "none")
    ∷ ("template_checkpoint", "0")
    ∷ ("ub_fabric_layout", plan.fabric_layout)
    ∷ ("ub_port_count", str plan.port_count)
    ∷ ("peer_link_rate_gbps", str rate)
    ∷ ("peer_switch_delay", str plan.switch_delay_ns <> "ns")
    ∷ ("max_jettys", str plan.max_jettys)
    ∷ ("public_jettys", jettys)
    ∷ []

-- The settings of the processor model.
abbrev pub lifecycle : Bool → Bool → List (String × String)
lifecycle true true =
    ("auto_o3_lifecycle", "1")
    ∷ ("fast_boot_noncaching", "1")
    ∷ ("initial_memory_mode", "atomic_noncaching")
    ∷ ("cpu_switch_policy", "perftest_lifecycle_enter_o3_exit_atomic")
    ∷ []
lifecycle true false =
    ("auto_o3_lifecycle", "0")
    ∷ ("fast_boot_noncaching", "0")
    ∷ ("initial_memory_mode", "atomic")
    ∷ ("cpu_switch_policy", "send_lat_roi_enter_o3_exit_atomic")
    ∷ []
lifecycle false required = ("auto_o3_lifecycle", "0") ∷ ("fast_boot_noncaching", "0") ∷ []

unfoldable pub set_number : String → Option ℕ → Values → Values
set_number key none values = values
set_number key (some n) values = insert key (str n) values

unfoldable pub set_text : String → Option String → Values → Values
set_text key none values = values
set_text key (some text) values = insert key text values

unfoldable pub tune : MachineSpec → Values → Values
unfolding set_number set_text
tune machine values = set_text "cache_prefetcher" machine.l1d_prefetcher (
    set_number "o3_sq_entries" machine.o3_sq_entries
      (set_number "o3_lq_entries" machine.o3_lq_entries values))

unfoldable pub latency_key : ℕ → String
latency_key index = "node" <> str index <> "_link_latency_ns"

unfoldable pub rate_key : ℕ → String
rate_key index = "node" <> str index <> "_link_rate_gbps"

-- The loop over the links.
unfoldable pub add_links : ℕ → List NodeLink → Values → Values
add_links index [] values = values
add_links index (link ∷ rest) values = add_links (suc index) rest (
    insert (rate_key index) (str link.rate_gbps)
      (insert (latency_key index) (str link.latency_ns) values))

-- `for index in range(index, index + more)` with its two `pop`s
unfoldable pub drop_links : ℕ → ℕ → Values → Values
drop_links index zero values = values
drop_links index (suc more) values =
    drop_links (suc index) more (erase (rate_key index) (erase (latency_key index) values))

unfoldable pub resolve_gem5 : String → Dict String Values → Spec → Plan → Result ConfigError Values
unfolding profile_values min_latency first_rate public_jettys update tune add_links drop_links
resolve_gem5 root defaults spec plan = do
  raise_if (not (plan.simulator == gem5)) not_gem5
  values ← profile_values defaults spec.profile
  let count = length plan.node_ids
  latency ← min_latency plan.node_links
  rate ← first_rate plan.node_links
  jettys ← public_jettys plan.jetty_limit_explicit values
  let values1 = update values (common root spec plan latency rate jettys)
  let values2 = update values1 (lifecycle (spec.profile == "modern") (spec.sync == "required"))
  let values3 = add_links 0 plan.node_links (tune spec.machine values2)
  ok (drop_links count (8 - count) values3)
