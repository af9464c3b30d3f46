-- ===== src/MemoryGuard/Monitor.antt =====
-- tools/host_memory_guard.py: the loop of `monitor`.
use openurma_gem5_lab.Prelude.{
  ℕ, ◌+◌, ◌%◌, ◌≤◌, ◌≡◌, refl, Bool, true, false, not, ◌&&◌, ◌||◌, List, [], ◌∷◌, ◌++◌, ◌==◌,
  nat_eq, ltb, leb, if◌then◌else◌, arith, ◌↔◌, sym, ◌∙◌,
}
use openurma_gem5_lab.MemoryGuard.Preflight.{reserve_bytes}

-- What one round meets: the run is over (its manifest is gone or replaced, or no guest is alive),
-- a reading of the host's total and available memory, or an exception.
pub data Sample : Type 0 where
  over : Sample
  reading : ℕ → ℕ → Sample
  failure : Sample

-- How `monitor` ends: status 0, status 2 after stopping the run, status 2 after an exception; or it
-- still watches.
pub data Ending : Type 0 where
  ended stopped failed watching : Ending

-- The loop's variables, and the low counts that it has logged.
pub record Guard : Type 0 where
  pub low_count : ℕ
  pub samples : ℕ
  pub log : List ℕ

abbrev pub fresh_guard : Guard
fresh_guard = record { low_count = 0; samples = 0; log = [] }

unfoldable pub is_low : Sample → Bool
is_low (reading total available) = ltb available (reserve_bytes total)
is_low over = false
is_low failure = false

-- The variables after a reading.
unfoldable pub read_sample : ℕ → ℕ → Guard → Guard
read_sample total available g =
    let low = if ltb available (reserve_bytes total) then g.low_count + 1 else 0 in
    record {
      low_count = low;
      samples = g.samples;
      log = if g.samples % 15 == 0 || not (low == 0) then g.log ++ low ∷ [] else g.log;
    }

-- `samples += 1`
unfoldable pub next_round : Guard → Guard
next_round g = record { low_count = g.low_count; samples = g.samples + 1; log = g.log }

-- The rounds, over what they meet.
unfoldable pub monitor : Guard → List Sample → Ending × Guard
monitor g [] = (watching, g)
monitor g (over ∷ rest) = (ended, g)
monitor g (failure ∷ rest) = (failed, g)
monitor g (reading total available ∷ rest) =
    let g' = read_sample total available g in
    let more = monitor (next_round g') rest in if leb 2 g'.low_count then (stopped, g') else more

-- Two low readings in a row, in front of any round that ends the loop.
pub two_low : Bool → List Sample → Bool
two_low before [] = false
two_low before (over ∷ rest) = false
two_low before (failure ∷ rest) = false
two_low before (reading total available ∷ rest) =
    let low = is_low (reading total available) in (before && low) || two_low low rest

abbrev pub is_stopped : Ending → Bool
is_stopped stopped = true
is_stopped _ = false

monitor-two_low_from :
    (samples : List Sample) (g : Guard)
    → g.low_count ≤ 1
    → is_stopped (monitor g samples).0 ≡ two_low (g.low_count == 1) samples
unfolding monitor two_low read_sample next_round is_low
monitor-two_low_from [] g h = refl
monitor-two_low_from (over ∷ rest) g h = refl
monitor-two_low_from (failure ∷ rest) g h = refl
monitor-two_low_from (reading total available ∷ rest) g h =
    let g' = read_sample total available g in
    ground (arith, monitor-two_low_from rest (next_round g'))

-- The monitor stops the run exactly if two readings in a row, before any round that ends the loop,
-- find the available memory below the reserve.
pub monitor-stops_iff :
    (samples : List Sample)
    → (is_stopped (monitor fresh_guard samples).0 ≡ true) ↔ (two_low false samples ≡ true)
monitor-stops_iff samples =
    let e = monitor-two_low_from samples fresh_guard (omega arith) in (λ h. sym e ∙ h, λ h. e ∙ h)
