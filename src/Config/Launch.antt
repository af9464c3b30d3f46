-- ===== src/Config/Launch.antt =====
-- ubsim_lab/config_runtime.py behind ubsim_lab/topology.py: the settings of an accepted topology.
use openurma_gem5_lab.Prelude.{
  ℕ, ◌-◌, ◌≤◌, ◌≡◌, refl, String, Bool, true, false, List, [], ◌∷◌, string_eq, some, length, arith,
}
use openurma_gem5_lab.Prelude.Dict.{Dict, lookup, has, lookup_of_has}
use openurma_gem5_lab.Prelude.Result.{ok, ◌>>=◌}
use openurma_gem5_lab.Json.{Json}
use openurma_gem5_lab.Topology.Nodes.{gem5, simulator_eq}
use openurma_gem5_lab.Topology.Links.{NodeLink}
use openurma_gem5_lab.Topology.Plan.{Plan, compile_topology}
use openurma_gem5_lab.Topology.Plan.Valid.{compile_topology-IsLaunchable}
use openurma_gem5_lab.Config.{
  Values, Spec, profile_values, min_latency, first_rate, public_jettys, tune, add_links, drop_links,
  resolve_gem5,
}
use openurma_gem5_lab.Config.Resolved.{settings, IsSynchronized, resolve_gem5-IsSynchronized}

min_latency-returns :
    (links : List NodeLink) → 1 ≤ length links → (latency : ℕ) × (min_latency links ≡ ok latency)
unfolding min_latency
min_latency-returns [] h = absurd (omega (arith, h))
min_latency-returns (link ∷ rest) h = (_, refl)

first_rate-returns :
    (links : List NodeLink) → 1 ≤ length links → (rate : ℕ) × (first_rate links ≡ ok rate)
unfolding first_rate
first_rate-returns [] h = absurd (omega (arith, h))
first_rate-returns (link ∷ rest) h = (link.rate_gbps, refl)

public_jettys-returns :
    (explicit : Bool) (values : Values)
    → has "public_jettys" values ≡ true
    → (jettys : String) × (public_jettys explicit values ≡ ok jettys)
unfolding public_jettys
public_jettys-returns true values h = ("1", refl)
public_jettys-returns false values h =
    let (jettys, found) = lookup_of_has "public_jettys" values h in (jettys, ground arith)

profile_values-known :
    (defaults : Dict String Values) (profile : String) (values : Values)
    → lookup profile defaults ≡ some values
    → profile_values defaults profile ≡ ok values
unfolding profile_values
profile_values-known defaults profile values known = ground arith

composed :
    (root : String) (defaults : Dict String Values) (spec : Spec) (plan : Plan) (values : Values)
    (latency rate : ℕ) (jettys : String)
    → plan.simulator ≡ gem5
    → lookup spec.profile defaults ≡ some values
    → min_latency plan.node_links ≡ ok latency
    → first_rate plan.node_links ≡ ok rate
    → public_jettys plan.jetty_limit_explicit values ≡ ok jettys
    → resolve_gem5 root defaults spec plan
      ≡ ok (
          drop_links (length plan.node_ids) (8 - length plan.node_ids) (
            add_links 0 plan.node_links
              (tune spec.machine (settings root spec plan values latency rate jettys))))
unfolding resolve_gem5 settings ◌>>=◌
composed root defaults spec plan values latency rate jettys simulator known least first public =
    rw (simulator, profile_values-known defaults spec.profile values known, least, first, public)
      refl

-- If `compile_topology` accepts a topology of gem5 nodes and the profile is known and has a default
-- for the public Jettys, then `resolve_gem5` returns settings, whose latency is at most the latency
-- of every link and whose one quantum is at most that latency.
pub resolve_gem5-compile_topology :
    (root : String) (defaults : Dict String Values) (spec : Spec) (raw : Json) (plan : Plan)
    (values : Values)
    → compile_topology raw ≡ ok plan
    → plan.simulator ≡ gem5
    → lookup spec.profile defaults ≡ some values
    → has "public_jettys" values ≡ true
    → (result : Values) × (resolve_gem5 root defaults spec plan ≡ ok result)
      × IsSynchronized plan.node_links result
resolve_gem5-compile_topology root defaults spec raw plan values compiled simulator known jetty =
    let v = compile_topology-IsLaunchable raw plan compiled in
    let several : 1 ≤ length plan.node_links = omega (arith, v.at_least, v.link_each) in
    let (latency, least) = min_latency-returns plan.node_links several in
    let (rate, first) = first_rate-returns plan.node_links several in
    let (jettys, public) = public_jettys-returns plan.jetty_limit_explicit values jetty in
    let result : Values = drop_links (length plan.node_ids) (8 - length plan.node_ids) (
      add_links 0 plan.node_links
        (tune spec.machine (settings root spec plan values latency rate jettys))) in
    let returned =
      composed root defaults spec plan values latency rate jettys simulator known least first
        public in
    (
      result,
      returned,
      resolve_gem5-IsSynchronized root defaults spec plan result returned v.link_each v.at_most,
    )
