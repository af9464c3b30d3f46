-- ===== src/Relay/Switching.antt =====
-- tools/ethernet_relay.py: where the learning switch sends a frame.
use openurma_gem5_lab.Prelude.{
  ℕ, zero, suc, ◌+◌, ◌≤◌, ◌<◌, ◌≡◌, ◌≢◌, ◌↔◌, ◌⊎◌, inl, inr, refl, Bool, true, false, List, [], ◌∷◌,
  nat_eq, list_eq, Option, some, none, contains, range_from, arith, Bool-cases,
}
use openurma_gem5_lab.Prelude.Dict.{Dict, lookup, lookup-insert}
use openurma_gem5_lab.Relay.{
  is_group, destination_mac, source_mac, learn, others, destinations_of, destinations,
}

contains-range_from : (s n k : ℕ) → (contains (range_from s n) k ≡ true) ↔ ((s ≤ k) × (k < s + n))
contains-range_from s zero k = ground arith
contains-range_from s (suc n) k = ground (arith, contains-range_from (suc s) n k)

contains-others :
    (source : ℕ) (ports : List ℕ) (k : ℕ)
    → (contains (others source ports) k ≡ true) ↔ ((contains ports k ≡ true) × (k ≢ source))
unfolding others
contains-others source [] k = ground arith
contains-others source (port ∷ rest) k = ground (arith, contains-others source rest k)

flooded :
    (count source k : ℕ)
    → (contains (others source (range_from 0 count)) k ≡ true) ↔ ((k < count) × (k ≢ source))
flooded count source k =
    ground (arith, contains-others source (range_from 0 count) k, contains-range_from 0 count k)

destinations_of_iff :
    (count source : ℕ) (group : Bool) (found : Option ℕ) (k : ℕ)
    → ((p : ℕ) → found ≡ some p → p < count)
    → (contains (destinations_of count source group found) k ≡ true)
      ↔ ((k < count) × (k ≢ source) × ((group ≡ true) ⊎ (found ≡ none) ⊎ (found ≡ some k)))
unfolding destinations_of
destinations_of_iff count source true found k known = ground (arith, flooded count source k)
destinations_of_iff count source false none k known = ground (arith, flooded count source k)
destinations_of_iff count source false (some port) k known = ground (arith, known port refl)

-- The ports of the table are ports of the relay.
abbrev pub IsBounded : ℕ → Dict (List ℕ) ℕ → Type 0
IsBounded count table = (mac : List ℕ) (port : ℕ) → lookup mac table ≡ some port → port < count

-- If the table holds ports of the relay only, a port is one of a frame's destinations exactly if it
-- is a port of the relay other than the source and the frame's destination is a group address, is
-- not in the table, or is in the table with that port.
pub destinations_iff :
    (count source : ℕ) (frame : List ℕ) (table : Dict (List ℕ) ℕ) (k : ℕ)
    → IsBounded count table
    → (contains (destinations count source frame table) k ≡ true) ↔ (
        (k < count)
        × (k ≢ source)
        × ((is_group (destination_mac frame) ≡ true)
            ⊎ (lookup (destination_mac frame) table ≡ none)
            ⊎ (lookup (destination_mac frame) table ≡ some k)))
unfolding destinations
destinations_iff count source frame table k bounded =
    destinations_of_iff count source (is_group (destination_mac frame))
      (lookup (destination_mac frame) table) k (bounded (destination_mac frame))

pub learn-IsBounded :
    (count source : ℕ) (frame : List ℕ) (table : Dict (List ℕ) ℕ)
    → source < count
    → IsBounded count table
    → IsBounded count (learn source frame table)
unfolding learn
learn-IsBounded count source frame table there bounded mac port =
    elim (Bool-cases (is_group (source_mac frame))) [
      | inl group ↦ rw group (bounded mac port)
      | inr station ↦
          rw (station, lookup-insert mac (source_mac frame) source table)
            (λ h. ground (arith, bounded mac port))
    ]

-- Once a frame from a station, that is with no group address for its source, has come in at a port,
-- the frames for that station from any other port go to that port alone.
pub destinations-learn :
    (count source other : ℕ) (frame answer : List ℕ) (table : Dict (List ℕ) ℕ)
    → is_group (source_mac frame) ≡ false
    → destination_mac answer ≡ source_mac frame
    → other ≢ source
    → destinations count other answer (learn source frame table) ≡ source ∷ []
unfolding destinations learn destinations_of
destinations-learn count source other frame answer table station addressed apart =
    rw (addressed, station, lookup-insert (source_mac frame) (source_mac frame) source table)
      (ground arith)
