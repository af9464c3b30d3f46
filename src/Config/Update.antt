-- ===== src/Config/Update.antt =====
-- ubsim_lab/config_runtime.py: what `update`, the machine settings and the minimum over the links do.
use openurma_gem5_lab.Prelude.{
  ℕ, ◌≤◌, ◌≡◌, refl, ap, ◌∙◌, min, String, false, List, [], ◌∷◌, ◌==◌, string_eq, if◌then◌else◌,
  Option, some, none, All, arith,
}
use openurma_gem5_lab.Prelude.Dict.{lookup, insert, lookup-insert}
use openurma_gem5_lab.Prelude.Result.{Ensures, Ensures-ok, Ensures-err}
use openurma_gem5_lab.Topology.Links.{NodeLink}
use openurma_gem5_lab.Config.{
  quantum_of, Values, MachineSpec, update, tune, set_number, set_text, min_latency,
  min_latency_from,
}

-- The value that the last pair of a key gives.
unfoldable pub last_of : String → List (String × String) → Option String → Option String
last_of k [] old = old
last_of k ((j, v) ∷ rest) old = last_of k rest (if j == k then some v else old)

pub lookup-update :
    (k : String) (pairs : List (String × String)) (values : Values)
    → lookup k (update values pairs) ≡ last_of k pairs (lookup k values)
unfolding update last_of
lookup-update k [] values = refl
lookup-update k ((j, v) ∷ rest) values =
    lookup-update k rest (insert j v values) ∙ ap (last_of k rest) (lookup-insert k j v values)

pub lookup-set_number :
    (k key : String) (n : Option ℕ) (values : Values)
    → (key == k) ≡ false
    → lookup k (set_number key n values) ≡ lookup k values
unfolding set_number
lookup-set_number k key none values h = refl
lookup-set_number k key (some n) values h = rw (lookup-insert k key, h) refl

pub lookup-set_text :
    (k key : String) (text : Option String) (values : Values)
    → (key == k) ≡ false
    → lookup k (set_text key text values) ≡ lookup k values
unfolding set_text
lookup-set_text k key none values h = refl
lookup-set_text k key (some text) values h = rw (lookup-insert k key, h) refl

pub lookup-tune :
    (k : String) (machine : MachineSpec) (values : Values)
    → ("cache_prefetcher" == k) ≡ false
    → ("o3_sq_entries" == k) ≡ false
    → ("o3_lq_entries" == k) ≡ false
    → lookup k (tune machine values) ≡ lookup k values
unfolding tune
lookup-tune k machine values a b c =
    lookup-set_text k "cache_prefetcher" machine.l1d_prefetcher _ a
    ∙ lookup-set_number k "o3_sq_entries" machine.o3_sq_entries _ b
    ∙ lookup-set_number k "o3_lq_entries" machine.o3_lq_entries values c

pub min_latency_from-least :
    (least : ℕ) (links : List NodeLink)
    → (min_latency_from least links ≤ least)
      × All (λ link. min_latency_from least links ≤ link.latency_ns) links
unfolding min_latency_from
min_latency_from-least least [] = (omega arith, tt)
min_latency_from-least least (link ∷ rest) =
    let (low, all_low) = min_latency_from-least (min least link.latency_ns) rest in
    (omega (arith, low), (omega (arith, low), all_low))

pub min_latency-least :
    (links : List NodeLink)
    → Ensures (λ latency. All (λ link. latency ≤ link.latency_ns) links) (min_latency links)
unfolding min_latency
min_latency-least [] = Ensures-err _
min_latency-least (link ∷ rest) = Ensures-ok _ (min_latency_from-least link.latency_ns rest)

pub quantum_of-le : (profile : String) (latency : ℕ) → quantum_of profile latency ≤ latency
unfolding quantum_of
quantum_of-le profile latency = ground arith
