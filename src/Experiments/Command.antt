-- ===== src/Experiments/Command.antt =====
-- ubsim_lab/experiments.py: `command`, the line that runs a test on a guest.
use openurma_gem5_lab.Prelude.{
  ℕ, ◌/◌, String, Bool, List, [], ◌∷◌, ◌++◌, ◌==◌, string_eq, if◌then◌else◌, ◌||◌,
}
use openurma_gem5_lab.Prelude.Text.{str, join}
use openurma_gem5_lab.Experiments.Recipe.{Recipe}

-- The tests of a recipe end in `_bw` or `_lat`.
unfoldable pub is_bandwidth : String → Bool
is_bandwidth op = op == "read_bw" || op == "write_bw"

unfoldable pub prefix_of : String → List String
prefix_of simulator =
    if simulator == "gem5" then "UBSIM_DIST_SYNC=1" ∷ "OPENURMA_DIST_SYNC=1" ∷ [] else []

unfoldable pub command_parts : String → ℕ → ℕ → Recipe → ℕ → Bool → String → List String
unfolding is_bandwidth prefix_of
command_parts op size jettys r port client simulator =
    prefix_of simulator
    ++ "LD_LIBRARY_PATH=/lib:/usr/lib"
      ∷ "urma_perftest"
      ∷ op
      ∷ "-d"
      ∷ "udma0"
      ∷ "--eid_idx"
      ∷ "0"
      ∷ "--ctp"
      ∷ "-s"
      ∷ str size
      ∷ "-P"
      ∷ str port
      ∷ "-J"
      ∷ str jettys
      ∷ []
    ++ (if is_bandwidth op then "--jettys_pre_jfr" ∷ "1" ∷ "-I" ∷ "0" ∷ [] else "-I" ∷ "128" ∷ [])
    ++ "-T"
      ∷ str r.depth
      ∷ "-R"
      ∷ str r.depth
      ∷ "-C"
      ∷ str r.jfc_depth
      ∷ "-n"
      ∷ str (r.total_ops / jettys)
      ∷ "-Q"
      ∷ "1"
      ∷ "-p"
      ∷ "0"
      ∷ []
    ++ (if is_bandwidth op then "-l" ∷ str r.post_list ∷ [] else [])
    ++ (if client then "-S" ∷ "10.0.0.1" ∷ [] else [])

unfoldable pub command : String → ℕ → ℕ → Recipe → ℕ → Bool → String → String
command op size jettys r port client simulator =
    join " " (command_parts op size jettys r port client simulator)
