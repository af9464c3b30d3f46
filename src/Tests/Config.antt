-- ===== src/Tests/Config.antt =====
-- ubsim_lab/config_runtime.py at two gem5 nodes, with a profile that has defaults for four.
use openurma_gem5_lab.Prelude.{
  ◌≡◌, refl, String, false, [], ◌∷◌, some, none, nat_eq, string_eq, arith,
}
use openurma_gem5_lab.Prelude.Dict.{Dict, lookup, insert, erase}
use openurma_gem5_lab.Prelude.Text.{str}
use openurma_gem5_lab.Prelude.Result.{Result, ok, err, ◌>>=◌}
use openurma_gem5_lab.Topology.Nodes.{gem5}
use openurma_gem5_lab.Topology.Links.{NodeLink}
use openurma_gem5_lab.Topology.Plan.{Plan}
use openurma_gem5_lab.Config.{
  Values, Spec, ConfigError, resolve_gem5, profile_values, min_latency, min_latency_from,
  first_rate, quantum_of, memory_of, initrd_of, public_jettys, update, set_number, set_text, tune,
  latency_key, rate_key, add_links, drop_links,
}
use openurma_gem5_lab.Config.PerNode.{IsGiven}
use openurma_gem5_lab.Config.Resolved.{
  resolve_gem5-IsGiven, IsSynchronized, resolve_gem5-IsSynchronized,
}

abbrev pub defaults : Dict String Values
defaults = ("modern", ("public_jettys", "0") ∷ ("node3_link_latency_ns", "375") ∷ []) ∷ []

abbrev pub spec : Spec
spec = record {
  profile = "modern";
  sync = "required";
  machine = record {
    memory_size_gb = some 4;
    o3_lq_entries = some 192;
    o3_sq_entries = none;
    l1d_prefetcher = some "stride";
  };
}

abbrev fast_link : NodeLink
fast_link = record { rate_gbps = 400; latency_ns = 80 }

abbrev slow_link : NodeLink
slow_link = record { rate_gbps = 200; latency_ns = 300 }

abbrev plan : Plan
plan = record {
  title = "two";
  simulator = gem5;
  node_ids = "a" ∷ "b" ∷ [];
  device_ids = "ua" ∷ "ub" ∷ [];
  switch_id = some "leaf";
  fabric_layout = "switch";
  backend = "native-json";
  port_count = 1;
  max_jettys = 47;
  jetty_limit_explicit = false;
  switch_delay_ns = 150;
  sync = "required";
  checkpoint = "auto";
  node_links = fast_link ∷ slow_link ∷ [];
  machines = [];
}

values_of : Result ConfigError Values → Values
values_of (ok values) = values
values_of (err e) = []

abbrev resolved : Values
resolved = values_of (resolve_gem5 "/lab/" defaults spec plan)

plan_settings : resolve_gem5 "/lab/" defaults spec plan ≡ ok resolved
unfolding values_of resolve_gem5 profile_values min_latency min_latency_from first_rate quantum_of
    memory_of initrd_of public_jettys update set_number set_text tune latency_key rate_key add_links
    drop_links lookup insert erase str ◌>>=◌
plan_settings = refl

resolve_gem5-IsSet_example : IsGiven 1 slow_link resolved
resolve_gem5-IsSet_example =
    resolve_gem5-IsGiven "/lab/" defaults spec plan resolved 1 slow_link plan_settings refl
      (omega arith) refl

resolve_gem5-IsSynchronized_example : IsSynchronized plan.node_links resolved
resolve_gem5-IsSynchronized_example =
    resolve_gem5-IsSynchronized "/lab/" defaults spec plan resolved plan_settings refl (omega arith)
