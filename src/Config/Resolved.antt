-- ===== src/Config/Resolved.antt =====
-- ubsim_lab/config_runtime.py: what the settings of a run say.
use mathlib.Core.Path.{subst}
use openurma_gem5_lab.Prelude.{
  get_elem?-lt, get_elem?, ◌<◌, ◌+◌, ◌-◌, Bool, ℕ, ◌≤◌, ◌≡◌, refl, ap, ◌∙◌, String, false, List, [],
  ◌∷◌, ◌==◌, string_eq, Option, some, All, arith, true, contains,
}
use openurma_gem5_lab.Prelude.Dict.{lookup, Dict}
use openurma_gem5_lab.Prelude.Result.{Ensures, Ensures-ok, ok, Ensures-bind, Ensures-raise_if}
use openurma_gem5_lab.Topology.Links.{NodeLink}
use openurma_gem5_lab.Topology.Plan.{Plan}
use openurma_gem5_lab.Config.Links.{
  foreign_key-IsElsewhere, latency_key-IsElsewhere, rate_key-IsElsewhere, add_links_elsewhere,
  drop_links_elsewhere, IsElsewhere,
}
use openurma_gem5_lab.Config.PerNode.{IsGiven, IsGone, add_links-IsGiven, drop_links-IsGone}
use openurma_gem5_lab.Config.Update.{
  last_of, lookup-update, lookup-tune, min_latency-least, quantum_of-le,
}
use openurma_gem5_lab.Config.{
  quantum_of, Spec, common, lifecycle, latency_key, rate_key, add_links, drop_links, resolve_gem5,
  Values, update, tune, length, str,
}

-- The settings as the function composes them.
unfoldable pub settings : String → Spec → Plan → Values → ℕ → ℕ → String → Values
settings root spec plan values latency rate jettys =
    let base = update values (common root spec plan latency rate jettys) in
    update base (lifecycle (spec.profile == "modern") (spec.sync == "required"))

record Parts (root : String) (spec : Spec) (plan : Plan) (result : Values) : Type 0 where
  values : Values
  latency : ℕ
  rate : ℕ
  jettys : String
  least : All (λ link. latency ≤ link.latency_ns) plan.node_links
  composed :
      result
      ≡ drop_links (length plan.node_ids) (8 - length plan.node_ids) (
          add_links 0 plan.node_links
            (tune spec.machine (settings root spec plan values latency rate jettys)))

resolve_gem5-Parts :
    (root : String) (defaults : Dict String Values) (spec : Spec) (plan : Plan)
    → Ensures (Parts root spec plan) (resolve_gem5 root defaults spec plan)
unfolding resolve_gem5 settings
resolve_gem5-Parts root defaults spec plan = Ensures-raise_if _ _ _ λ _.
    Ensures-bind _ _ λ values _. Ensures-bind _ _ λ latency found. Ensures-bind _ _ λ rate _.
      Ensures-bind _ _ λ jettys _. Ensures-ok _ (record {
        values = values;
        latency = latency;
        rate = rate;
        jettys = jettys;
        least = (min_latency-least plan.node_links).holds latency found;
        composed = refl;
      })

-- What stands behind the nodes of the plan is no matter to the settings of its nodes.
kept :
    {root : String} {spec : Spec} {plan : Plan} {result : Values} (p : Parts root spec plan result)
    (key : String)
    → length plan.node_ids ≤ 8
    → IsElsewhere (length plan.node_ids) key
    → lookup key result
      ≡ lookup key (
          add_links 0 plan.node_links
            (tune spec.machine (settings root spec plan p.values p.latency p.rate p.jettys)))
kept {plan = plan} p key few elsewhere =
    ap (lookup key) p.composed
    ∙ drop_links_elsewhere key (length plan.node_ids) (8 - length plan.node_ids) _
        (omega (arith, few)) elsewhere

-- The latency and the rate of the link of each node are the node's settings, if the plan has as many
-- links as nodes and 8 nodes at most.
pub resolve_gem5-IsGiven :
    (root : String) (defaults : Dict String Values) (spec : Spec) (plan : Plan) (values : Values)
    (k : ℕ) (link : NodeLink)
    → resolve_gem5 root defaults spec plan ≡ ok values
    → length plan.node_links ≡ length plan.node_ids
    → length plan.node_ids ≤ 8
    → get_elem? plan.node_links k ≡ some link
    → IsGiven k link values
resolve_gem5-IsGiven root defaults spec plan values k link h each few found =
    let p = (resolve_gem5-Parts root defaults spec plan).holds values h in
    let count = length plan.node_ids in
    let base = tune spec.machine (settings root spec plan p.values p.latency p.rate p.jettys) in
    let inside : k < count = omega (arith, get_elem?-lt plan.node_links k link found, each) in
    let below : k < 8 = omega (arith, inside, few) in
    let place : 0 + k ≡ k = omega arith in
    let v : IsGiven k link (add_links 0 plan.node_links base) =
      subst (λ n. IsGiven n link (add_links 0 plan.node_links base)) place
        (add_links-IsGiven 0 k plan.node_links link base (omega (arith, each, few)) found) in
    record {
      latency =
          kept p (latency_key k) few (latency_key-IsElsewhere count k inside below) ∙ v.latency;
      rate = kept p (rate_key k) few (rate_key-IsElsewhere count k inside below) ∙ v.rate;
    }

-- A node that the plan does not have, below 8, has no link settings, whatever the profile's defaults
-- say.
pub resolve_gem5-IsGone :
    (root : String) (defaults : Dict String Values) (spec : Spec) (plan : Plan) (values : Values)
    (k : ℕ)
    → resolve_gem5 root defaults spec plan ≡ ok values
    → length plan.node_ids ≤ k
    → k < 8
    → IsGone k values
resolve_gem5-IsGone root defaults spec plan values k h absent below =
    let p = (resolve_gem5-Parts root defaults spec plan).holds values h in
    let count = length plan.node_ids in
    let base = tune spec.machine (settings root spec plan p.values p.latency p.rate p.jettys) in
    let all_links = add_links 0 plan.node_links base in
    let place : count + (k - count) ≡ k = omega (arith, absent) in
    let v : IsGone k (drop_links count (8 - count) all_links) =
      subst (λ n. IsGone n (drop_links count (8 - count) all_links)) place
        (drop_links-IsGone count (k - count) (8 - count) all_links (omega (arith, absent, below))
          (omega (arith, absent, below))) in
    record {
      latency = ap (lookup (latency_key k)) p.composed ∙ v.latency;
      rate = ap (lookup (rate_key k)) p.composed ∙ v.rate;
    }

-- The settings that the run's synchronization rests on.
pub record IsSynchronized (links : List NodeLink) (values : Values) : Type 0 where
  pub latency : ℕ
  pub quantum : ℕ
  pub latency_set : lookup "peer_latency_ns" values ≡ some (str latency)
  pub quantum_set : lookup "sync_quantum_ns" values ≡ some (str quantum)
  pub host_set : lookup "external_udma_host_latency_ns" values ≡ some (str quantum)
  pub least : All (λ link. latency ≤ link.latency_ns) links
  pub within : quantum ≤ latency

lookup-settings :
    (key : String) (root : String) (spec : Spec) (plan : Plan) (values : Values) (latency rate : ℕ)
    (jettys : String)
    → lookup key (settings root spec plan values latency rate jettys)
      ≡ last_of key
          (lifecycle (spec.profile == "modern") (spec.sync == "required"))
          (last_of key (common root spec plan latency rate jettys) (lookup key values))
unfolding settings
lookup-settings key root spec plan values latency rate jettys =
    let base = common root spec plan latency rate jettys in
    let tail = lifecycle (spec.profile == "modern") (spec.sync == "required") in
    lookup-update key tail (update values base)
    ∙ ap (last_of key tail) (lookup-update key base values)

-- A setting that no link and no machine setting changes.
lookup-composed :
    {root : String} {spec : Spec} {plan : Plan} {result : Values} (p : Parts root spec plan result)
    (key : String)
    → length plan.node_links ≡ length plan.node_ids
    → length plan.node_ids ≤ 8
    → IsElsewhere 0 key
    → ("cache_prefetcher" == key) ≡ false
    → ("o3_sq_entries" == key) ≡ false
    → ("o3_lq_entries" == key) ≡ false
    → lookup key result
      ≡ last_of key
          (lifecycle (spec.profile == "modern") (spec.sync == "required"))
          (last_of key (common root spec plan p.latency p.rate p.jettys) (lookup key p.values))
lookup-composed {root = root} {spec = spec} {plan = plan} p key each few elsewhere a b c =
    kept p key few (from_zero (length plan.node_ids) elsewhere)
    ∙ add_links_elsewhere key 0 plan.node_links _ (omega (arith, each, few)) elsewhere
    ∙ lookup-tune key spec.machine _ a b c
    ∙ lookup-settings key root spec plan p.values p.latency p.rate p.jettys
  where
    from_zero : (i : ℕ) → IsElsewhere 0 key → IsElsewhere i key
    from_zero i v = record {
      latency = λ l low high. v.latency l (omega arith) high;
      rate = λ l low high. v.rate l (omega arith) high;
    }

last_of-lifecycle :
    (key : String) (modern required : Bool) (old : Option String)
    → contains
        ("auto_o3_lifecycle" ∷ "fast_boot_noncaching" ∷ "initial_memory_mode" ∷ "cpu_switch_policy"
          ∷ [])
        key
      ≡ false
    → last_of key (lifecycle modern required) old ≡ old
unfolding last_of
last_of-lifecycle key true true old h = ground arith
last_of-lifecycle key true false old h = ground arith
last_of-lifecycle key false required old h = ground arith

-- If the plan has as many links as nodes and 8 nodes at most, the settings have one latency that is
-- at most the latency of every link, and one quantum, for the synchronization and for the access to
-- the external device, that is at most that latency.
pub resolve_gem5-IsSynchronized :
    (root : String) (defaults : Dict String Values) (spec : Spec) (plan : Plan) (values : Values)
    → resolve_gem5 root defaults spec plan ≡ ok values
    → length plan.node_links ≡ length plan.node_ids
    → length plan.node_ids ≤ 8
    → IsSynchronized plan.node_links values
unfolding last_of
resolve_gem5-IsSynchronized root defaults spec plan values h each few =
    let p = (resolve_gem5-Parts root defaults spec plan).holds values h in
    record {
      latency = p.latency;
      quantum = quantum_of spec.profile p.latency;
      latency_set =
          lookup-composed p "peer_latency_ns" each few
            (foreign_key-IsElsewhere "peer_latency_ns" refl refl) refl refl refl
          ∙ last_of-lifecycle "peer_latency_ns" (spec.profile == "modern") (spec.sync == "required")
              _ refl;
      quantum_set =
          lookup-composed p "sync_quantum_ns" each few
            (foreign_key-IsElsewhere "sync_quantum_ns" refl refl) refl refl refl
          ∙ last_of-lifecycle "sync_quantum_ns" (spec.profile == "modern") (spec.sync == "required")
              _ refl;
      host_set =
          lookup-composed p "external_udma_host_latency_ns" each few
            (foreign_key-IsElsewhere "external_udma_host_latency_ns" refl refl) refl refl refl
          ∙ last_of-lifecycle "external_udma_host_latency_ns" (spec.profile == "modern")
              (spec.sync == "required") _ refl;
      least = p.least;
      within = quantum_of-le spec.profile p.latency;
    }
