-- ===== src/Tests/Launch.antt =====
-- ubsim_lab/config_runtime.py at the plan of the two gem5 heads.
use openurma_gem5_lab.Prelude.{◌≡◌, refl, true, [], ◌∷◌, some, string_eq}
use openurma_gem5_lab.Prelude.Dict.{lookup, has}
use openurma_gem5_lab.Prelude.Result.{ok}
use openurma_gem5_lab.Json.{str}
use openurma_gem5_lab.Config.{Values, resolve_gem5}
use openurma_gem5_lab.Config.Resolved.{IsSynchronized}
use openurma_gem5_lab.Config.Launch.{resolve_gem5-compile_topology}
use openurma_gem5_lab.Tests.Topology.{heads, two_heads, heads_compile}
use openurma_gem5_lab.Tests.Config.{spec, defaults}

abbrev modern_values : Values
modern_values = ("public_jettys", "0") ∷ ("node3_link_latency_ns", "375") ∷ []

modern_known : lookup spec.profile defaults ≡ some modern_values
unfolding lookup
modern_known = refl

modern_jettys : has "public_jettys" modern_values ≡ true
unfolding has
modern_jettys = refl

resolve_gem5-compile_topology_example :
    (result : Values) × (resolve_gem5 "/lab/" defaults spec two_heads ≡ ok result)
    × IsSynchronized two_heads.node_links result
resolve_gem5-compile_topology_example =
    resolve_gem5-compile_topology "/lab/" defaults spec (heads (str "ua")) two_heads modern_values
      heads_compile refl modern_known modern_jettys
