-- ===== src/Config/Links.antt =====
-- ubsim_lab/config_runtime.py: the settings of each node's link.
use openurma_gem5_lab.Prelude.{
  ℕ, zero, suc, ◌+◌, ◌≤◌, ◌<◌, ◌≡◌, ◌≢◌, refl, sym, ap, ◌∙◌, String, true, false, List, [], ◌∷◌,
  ◌==◌, nat_eq, string_eq, eq_iff, length, contains, index_of, arith, Bool-cases, inl, inr,
}
use openurma_gem5_lab.Prelude.Dict.{lookup, lookup-insert, lookup-erase}
use openurma_gem5_lab.Prelude.Text.{str}
use openurma_gem5_lab.Topology.Links.{NodeLink}
use openurma_gem5_lab.Config.{Values, latency_key, rate_key, add_links, drop_links}

abbrev latency_keys : List String
latency_keys =
    "node0_link_latency_ns" ∷ "node1_link_latency_ns" ∷ "node2_link_latency_ns"
    ∷ "node3_link_latency_ns" ∷ "node4_link_latency_ns" ∷ "node5_link_latency_ns"
    ∷ "node6_link_latency_ns" ∷ "node7_link_latency_ns" ∷ []

abbrev rate_keys : List String
rate_keys =
    "node0_link_rate_gbps" ∷ "node1_link_rate_gbps" ∷ "node2_link_rate_gbps"
    ∷ "node3_link_rate_gbps" ∷ "node4_link_rate_gbps" ∷ "node5_link_rate_gbps"
    ∷ "node6_link_rate_gbps" ∷ "node7_link_rate_gbps" ∷ []

-- The two keys of a node, by the places that they have in the lists.
record IsNumbered (i : ℕ) : Type 0 where
  latency_at : index_of (latency_key i) latency_keys ≡ i
  rate_at : index_of (rate_key i) rate_keys ≡ i
  latency_known : contains latency_keys (latency_key i) ≡ true
  rate_known : contains rate_keys (rate_key i) ≡ true
  latency_only : contains rate_keys (latency_key i) ≡ false

numbered : (i : ℕ) → i < 8 → IsNumbered i
unfolding latency_key rate_key str
numbered zero h = record {
  latency_at = refl;
  rate_at = refl;
  latency_known = refl;
  rate_known = refl;
  latency_only = refl;
}
numbered (suc zero) h = record {
  latency_at = refl;
  rate_at = refl;
  latency_known = refl;
  rate_known = refl;
  latency_only = refl;
}
numbered (suc (suc zero)) h = record {
  latency_at = refl;
  rate_at = refl;
  latency_known = refl;
  rate_known = refl;
  latency_only = refl;
}
numbered (suc (suc (suc zero))) h = record {
  latency_at = refl;
  rate_at = refl;
  latency_known = refl;
  rate_known = refl;
  latency_only = refl;
}
numbered (suc (suc (suc (suc zero)))) h = record {
  latency_at = refl;
  rate_at = refl;
  latency_known = refl;
  rate_known = refl;
  latency_only = refl;
}
numbered (suc (suc (suc (suc (suc zero))))) h = record {
  latency_at = refl;
  rate_at = refl;
  latency_known = refl;
  rate_known = refl;
  latency_only = refl;
}
numbered (suc (suc (suc (suc (suc (suc zero)))))) h = record {
  latency_at = refl;
  rate_at = refl;
  latency_known = refl;
  rate_known = refl;
  latency_only = refl;
}
numbered (suc (suc (suc (suc (suc (suc (suc zero))))))) h = record {
  latency_at = refl;
  rate_at = refl;
  latency_known = refl;
  rate_known = refl;
  latency_only = refl;
}
numbered (suc (suc (suc (suc (suc (suc (suc (suc i)))))))) h = absurd (omega (arith, h))

pub different : (a b : String) → a ≢ b → (a == b) ≡ false
different a b h = elim (Bool-cases (a == b)) [
  | inl same ↦ absurd (h ((eq_iff a b).0 same))
  | inr other ↦ other
]

latency_apart : (i j : ℕ) → i < 8 → j < 8 → i ≢ j → (latency_key i == latency_key j) ≡ false
latency_apart i j hi hj ne = different (latency_key i) (latency_key j) λ e. ne (
    sym (numbered i hi).latency_at
    ∙ ap (λ k. index_of k latency_keys) e
    ∙ (numbered j hj).latency_at)

rate_apart : (i j : ℕ) → i < 8 → j < 8 → i ≢ j → (rate_key i == rate_key j) ≡ false
rate_apart i j hi hj ne = different (rate_key i) (rate_key j) λ e.
    ne (sym (numbered i hi).rate_at ∙ ap (λ k. index_of k rate_keys) e ∙ (numbered j hj).rate_at)

pub latency-ne-rate : (i j : ℕ) → i < 8 → j < 8 → latency_key i ≢ rate_key j
latency-ne-rate i j hi hj e =
    let here = (numbered j hj).rate_known in
    let there = sym (ap (contains rate_keys) e) ∙ (numbered i hi).latency_only in cc

-- A key that no node from `i` on has.
pub record IsElsewhere (i : ℕ) (k : String) : Type 0 where
  pub latency : (l : ℕ) → i ≤ l → l < 8 → (latency_key l == k) ≡ false
  pub rate : (l : ℕ) → i ≤ l → l < 8 → (rate_key l == k) ≡ false

pub latency_key-IsElsewhere : (i j : ℕ) → j < i → j < 8 → IsElsewhere i (latency_key j)
latency_key-IsElsewhere i j h hj = record {
  latency = λ l low high. latency_apart l j high hj (λ e. absurd (omega (arith, e, low, h)));
  rate = λ l low high.
      different (rate_key l) (latency_key j) (λ e. latency-ne-rate j l hj high (sym e));
}

pub rate_key-IsElsewhere : (i j : ℕ) → j < i → j < 8 → IsElsewhere i (rate_key j)
rate_key-IsElsewhere i j h hj = record {
  latency = λ l low high. different (latency_key l) (rate_key j) (latency-ne-rate l j high hj);
  rate = λ l low high. rate_apart l j high hj (λ e. absurd (omega (arith, e, low, h)));
}

-- A key in neither list.
pub foreign_key-IsElsewhere :
    (k : String) → contains latency_keys k ≡ false → contains rate_keys k ≡ false → IsElsewhere 0 k
foreign_key-IsElsewhere k a b = record {
  latency = λ l low high. different (latency_key l) k (λ e.
      let there = (numbered l high).latency_known in let here = ap (contains latency_keys) e in cc);
  rate = λ l low high.
      different (rate_key l) k (λ e.
        let there = (numbered l high).rate_known in let here = ap (contains rate_keys) e in cc);
}

later : (i : ℕ) (k : String) → IsElsewhere i k → IsElsewhere (suc i) k
later i k v = record {
  latency = λ l low high. v.latency l (omega arith) high;
  rate = λ l low high. v.rate l (omega arith) high;
}

pub add_links_elsewhere :
    (k : String) (i : ℕ) (links : List NodeLink) (values : Values)
    → i + length links ≤ 8
    → IsElsewhere i k
    → lookup k (add_links i links values) ≡ lookup k values
unfolding add_links
add_links_elsewhere k i [] values h v = refl
add_links_elsewhere k i (link ∷ rest) values h v =
    add_links_elsewhere k (suc i) rest _ (omega arith) (later i k v)
    ∙ rw
        (
          lookup-insert k (rate_key i),
          v.rate i (omega arith) (omega arith),
          lookup-insert k (latency_key i),
          v.latency i (omega arith) (omega arith),
        )
        refl

pub drop_links_elsewhere :
    (k : String) (i more : ℕ) (values : Values)
    → i + more ≤ 8
    → IsElsewhere i k
    → lookup k (drop_links i more values) ≡ lookup k values
unfolding drop_links
drop_links_elsewhere k i zero values h v = refl
drop_links_elsewhere k i (suc more) values h v =
    drop_links_elsewhere k (suc i) more _ (omega arith) (later i k v)
    ∙ rw
        (
          lookup-erase k (rate_key i),
          v.rate i (omega arith) (omega arith),
          lookup-erase k (latency_key i),
          v.latency i (omega arith) (omega arith),
        )
        refl
