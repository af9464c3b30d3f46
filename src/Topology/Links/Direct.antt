-- ===== src/Topology/Links/Direct.antt =====
-- ubsim_lab/topology.py: the two halves of a direct link.
use openurma_gem5_lab.Prelude.{
  ℕ, ◌-◌, ◌/◌, ◌≤◌, String, ◌≡◌, refl, not, ◌||◌, List, [], ◌∷◌, ◌==◌, nat_eq, arith, Bool-cases,
  inl, inr, some, ap, ◌∙◌, ◌+◌, string_eq,
}
use openurma_gem5_lab.Prelude.Result.{
  Ensures, Ensures-bind, Ensures-ok, Ensures-err, Ensures-raise_if, ok, ◌>>=◌,
}
use openurma_gem5_lab.Json.{Json, Members, obj, num, members, null, bool, float, str, arr}
use openurma_gem5_lab.Prelude.Dict.{Dict, lookup}
use openurma_gem5_lab.Prelude.Int.{pos, negsuc}
use openurma_gem5_lab.Topology.Fields.{fields, at, integer}
use openurma_gem5_lab.Topology.Links.{direct_fields, NodeLink, read_direct_link, direct_links}
use openurma_gem5_lab.Topology.Fields.Laws.{integer-ge}

-- Two nodes of one port each, and two halves of one link.
pub record IsSplit (nodes port_count : ℕ) (raws : List Json) (links : List NodeLink) : Type 0 where
  pub two : nodes ≡ 2
  pub one : port_count ≡ 1
  pub link : Members
  pub only : raws ≡ obj link ∷ []
  pub rate : ℕ
  pub latency : ℕ
  pub rate_given : lookup "rate_gbps" (members link) ≡ some (num (pos rate))
  pub latency_given : lookup "latency_ns" (members link) ≡ some (num (pos latency))
  pub rate_low : 1 ≤ rate
  pub rate_high : rate ≤ 100000
  pub latency_low : 2 ≤ latency
  pub latency_high : latency ≤ 1000000000
  pub halves :
      links
      ≡ record { rate_gbps = rate; latency_ns = latency / 2 }
        ∷ record { rate_gbps = rate; latency_ns = latency - latency / 2 }
        ∷ []

at-lookup :
    (d : Dict String Json) (key : String) {v : Json} → at d key ≡ ok v → lookup key d ≡ some v
unfolding at
at-lookup d key h = ground arith

integer-num :
    (raw : Json) (place : String) (minimum : ℕ) {n : ℕ}
    → integer raw place minimum ≡ ok n
    → raw ≡ num (pos n)
unfolding integer
integer-num (num (pos m)) place minimum h = ground arith
integer-num (num (negsuc m)) place minimum h = cc
integer-num null place minimum h = cc
integer-num (bool b) place minimum h = cc
integer-num (float n) place minimum h = cc
integer-num (str n) place minimum h = cc
integer-num (arr n) place minimum h = cc
integer-num (obj n) place minimum h = cc

given :
    (d : Dict String Json) (key place : String) (minimum : ℕ) {v : Json} {n : ℕ}
    → at d key ≡ ok v
    → integer v place minimum ≡ ok n
    → lookup key d ≡ some (num (pos n))
given d key place minimum {v = v} found read =
    at-lookup d key found ∙ ap some (integer-num v place minimum read)

members_given :
    (link : Members) (key place : String) (minimum : ℕ) {d : Dict String Json} {v : Json} {n : ℕ}
    → fields (obj link) direct_fields direct_fields "links[0]" ≡ ok d
    → at d key ≡ ok v
    → integer v place minimum ≡ ok n
    → lookup key (members link) ≡ some (num (pos n))
unfolding fields
members_given link key place minimum {d = d} parsed found read =
    let same : members link ≡ d = ground arith in rw same (given d key place minimum found read)

read_direct_link-IsSplit :
    (link : Members) (devices : List String)
    → Ensures (IsSplit 2 1 (obj link ∷ [])) (read_direct_link (obj link) devices)
unfolding read_direct_link
read_direct_link-IsSplit link devices = Ensures-bind _ _ λ d parsed. Ensures-bind _ _ λ device _.
    Ensures-bind _ _ λ _ _. Ensures-bind _ _ λ peer_device _. Ensures-bind _ _ λ _ _.
      Ensures-raise_if _ _ _ λ _. Ensures-bind _ _ λ raw_device_port _.
        Ensures-bind _ _ λ device_port _. Ensures-raise_if _ _ _ λ _.
          Ensures-bind _ _ λ raw_peer_port _. Ensures-bind _ _ λ peer_port _.
            Ensures-raise_if _ _ _ λ _. Ensures-bind _ _ λ raw_rate rate_found.
              Ensures-bind _ _ λ rate rate_read. Ensures-bind _ _ λ raw_latency latency_found.
                Ensures-bind _ _ λ latency latency_read. Ensures-raise_if _ _ _ λ high.
                  Ensures-ok _ (record {
                    two = refl;
                    one = refl;
                    link = link;
                    only = refl;
                    rate = rate;
                    latency = latency;
                    rate_given = members_given link "rate_gbps" _ 1 parsed rate_found rate_read;
                    latency_given =
                        members_given link "latency_ns" _ 2 parsed latency_found latency_read;
                    rate_low = integer-ge raw_rate _ 1 rate_read;
                    rate_high = ground arith;
                    latency_low = integer-ge raw_latency _ 2 latency_read;
                    latency_high = ground arith;
                    halves = refl;
                  })

any_link-IsSplit :
    (raw : Json) (devices : List String)
    → Ensures (IsSplit 2 1 (raw ∷ [])) (read_direct_link raw devices)
unfolding read_direct_link fields ◌>>=◌
any_link-IsSplit null devices = Ensures-err _
any_link-IsSplit (bool b) devices = Ensures-err _
any_link-IsSplit (num n) devices = Ensures-err _
any_link-IsSplit (float n) devices = Ensures-err _
any_link-IsSplit (str n) devices = Ensures-err _
any_link-IsSplit (arr vs) devices = Ensures-err _
any_link-IsSplit (obj link) devices = read_direct_link-IsSplit link devices

-- An accepted direct link is split over its two nodes.
pub direct_links-IsSplit :
    (nodes port_count : ℕ) (raws : List Json) (devices : List String)
    → Ensures (IsSplit nodes port_count raws) (direct_links nodes port_count raws devices)
unfolding direct_links
direct_links-IsSplit nodes port_count [] devices = Ensures-err _
direct_links-IsSplit nodes port_count (raw ∷ raw' ∷ rest) devices = Ensures-err _
direct_links-IsSplit nodes port_count (raw ∷ []) devices =
    elim (Bool-cases (not (nodes == 2) || not (port_count == 1))) [
      | inl wrong ↦ rw wrong (Ensures-err _)
      | inr right ↦
          let two : nodes ≡ 2 = ground arith in
          let one : port_count ≡ 1 = ground arith in
          rw (right, two, one) (any_link-IsSplit raw devices)
    ]

-- If the direct layout is accepted, there are two nodes of one port each and one link, an object;
-- both nodes get the link's rate, and the delays of the two halves add up to the link's, which is
-- at least 2 ns; each half is at least 1 ns, and the second is the first or 1 ns longer.
pub direct_links-halves :
    (nodes port_count : ℕ) (raws : List Json) (devices : List String) (links : List NodeLink)
    → direct_links nodes port_count raws devices ≡ ok links
    → (nodes ≡ 2)
      × (port_count ≡ 1)
      × ((link : Members) × (a : NodeLink) × (b : NodeLink) × (raws ≡ obj link ∷ [])
          × (links ≡ a ∷ b ∷ [])
          × (lookup "rate_gbps" (members link) ≡ some (num (pos a.rate_gbps)))
          × (b.rate_gbps ≡ a.rate_gbps)
          × (lookup "latency_ns" (members link) ≡ some (num (pos (a.latency_ns + b.latency_ns))))
          × (2 ≤ a.latency_ns + b.latency_ns)
          × (1 ≤ a.latency_ns)
          × (a.latency_ns ≤ b.latency_ns)
          × (b.latency_ns ≤ a.latency_ns + 1))
direct_links-halves nodes port_count raws devices links h =
    let v = (direct_links-IsSplit nodes port_count raws devices).holds links h in
    let low = v.latency_low in
    let whole : v.latency ≡ v.latency / 2 + (v.latency - v.latency / 2) = omega arith in
    (
      v.two,
      v.one,
      (
        v.link,
        record { rate_gbps = v.rate; latency_ns = v.latency / 2 },
        record { rate_gbps = v.rate; latency_ns = v.latency - v.latency / 2 },
        v.only,
        v.halves,
        v.rate_given,
        refl,
        v.latency_given ∙ ap (λ n. some (num (pos n))) whole,
        omega arith,
        omega arith,
        omega arith,
        omega arith,
      ),
    )
