-- ===== src/Config/PerNode.antt =====
-- ubsim_lab/config_runtime.py: the loops over the links and over the nodes that a run has not.
use openurma_gem5_lab.Prelude.{
  ℕ, zero, suc, ◌+◌, ◌≤◌, ◌<◌, ◌≡◌, refl, sym, ◌∙◌, String, true, false, List, [], ◌∷◌, ◌==◌,
  string_eq, eq_iff, some, none, length, get_elem?, arith,
}
use openurma_gem5_lab.Prelude.Dict.{lookup, lookup-insert, lookup-erase}
use openurma_gem5_lab.Prelude.Text.{str}
use openurma_gem5_lab.Topology.Links.{NodeLink}
use mathlib.Core.Path.{subst}
use openurma_gem5_lab.Config.{Values, latency_key, rate_key, add_links, drop_links}
use openurma_gem5_lab.Config.Links.{
  latency_key-IsElsewhere, rate_key-IsElsewhere, latency-ne-rate, different, add_links_elsewhere,
  drop_links_elsewhere,
}

same_key : (k : String) → (k == k) ≡ true
same_key k = (eq_iff k k).1 refl

rate_latency : (i : ℕ) → i < 8 → (rate_key i == latency_key i) ≡ false
rate_latency i h = different (rate_key i) (latency_key i) (λ e. latency-ne-rate i i h h (sym e))

-- The settings of a node are those of its link.
pub record IsGiven (node : ℕ) (link : NodeLink) (values : Values) : Type 0 where
  pub latency : lookup (latency_key node) values ≡ some (str link.latency_ns)
  pub rate : lookup (rate_key node) values ≡ some (str link.rate_gbps)

first-IsGiven :
    (i : ℕ) (link : NodeLink) (rest : List NodeLink) (values : Values)
    → suc i + length rest ≤ 8
    → IsGiven i link (add_links i (link ∷ rest) values)
unfolding add_links
first-IsGiven i link rest values h =
    let inside : i < 8 = omega arith in
    record {
      latency =
          (add_links_elsewhere (latency_key i) (suc i) rest _ h
              (latency_key-IsElsewhere (suc i) i (omega arith) inside)
            ∙ rw
                (
                  lookup-insert (latency_key i) (rate_key i),
                  rate_latency i inside,
                  lookup-insert (latency_key i) (latency_key i),
                  same_key (latency_key i),
                )
                refl);
      rate =
          (add_links_elsewhere (rate_key i) (suc i) rest _ h
              (rate_key-IsElsewhere (suc i) i (omega arith) inside)
            ∙ rw (lookup-insert (rate_key i) (rate_key i), same_key (rate_key i)) refl);
    }

pub add_links-IsGiven :
    (i k : ℕ) (links : List NodeLink) (link : NodeLink) (values : Values)
    → i + length links ≤ 8
    → get_elem? links k ≡ some link
    → IsGiven (i + k) link (add_links i links values)
unfolding add_links
add_links-IsGiven i k [] link values h e = absurd (cc)
add_links-IsGiven i zero (link' ∷ rest) link values h e =
    let same : link' ≡ link = cc in
    let here : i + zero ≡ i = omega arith in
    rw here (
      subst (λ l. IsGiven i l (add_links i (link' ∷ rest) values)) same
        (first-IsGiven i link' rest values (omega arith)))
add_links-IsGiven i (suc k) (link' ∷ rest) link values h e =
    let place : i + suc k ≡ suc i + k = omega arith in
    rw place (add_links-IsGiven (suc i) k rest link _ (omega arith) e)

-- A node's settings are gone.
pub record IsGone (node : ℕ) (values : Values) : Type 0 where
  pub latency : lookup (latency_key node) values ≡ none
  pub rate : lookup (rate_key node) values ≡ none

pub drop_links-IsGone :
    (i k more : ℕ) (values : Values)
    → i + more ≤ 8
    → k < more
    → IsGone (i + k) (drop_links i more values)
unfolding drop_links
drop_links-IsGone i k zero values h lt = absurd (omega (arith, lt))
drop_links-IsGone i zero (suc more) values h lt =
    let here : i + zero ≡ i = omega arith in
    let inside : i < 8 = omega arith in
    rw here (record {
      latency =
          (drop_links_elsewhere (latency_key i) (suc i) more _ (omega arith)
              (latency_key-IsElsewhere (suc i) i (omega arith) inside)
            ∙ rw
                (
                  lookup-erase (latency_key i) (rate_key i),
                  rate_latency i inside,
                  lookup-erase (latency_key i) (latency_key i),
                  same_key (latency_key i),
                )
                refl);
      rate =
          (drop_links_elsewhere (rate_key i) (suc i) more _ (omega arith)
              (rate_key-IsElsewhere (suc i) i (omega arith) inside)
            ∙ rw (lookup-erase (rate_key i) (rate_key i), same_key (rate_key i)) refl);
    })
drop_links-IsGone i (suc k) (suc more) values h lt =
    let place : i + suc k ≡ suc i + k = omega arith in
    rw place (drop_links-IsGone (suc i) k more _ (omega arith) (omega arith))
