-- ===== src/Launcher/Settings.antt =====
-- ubsim_lab/config_launcher.py: what both launchers read, the settings and the host.
use openurma_gem5_lab.Prelude.{
  arith, All, true, ◌≡◌, Bool-cases, inl, inr, ℕ, ◌-◌, String, Bool, List, [], ◌∷◌, Option, some,
  none, length, take, ◌==◌, string_eq, nat_eq, if◌then◌else◌,
}
use openurma_gem5_lab.Prelude.Dict.{Dict, lookup}
use openurma_gem5_lab.Prelude.Int.{ℤ}
use openurma_gem5_lab.Prelude.Text.{codes, int_of, times_ℤ}
use openurma_gem5_lab.Prelude.Result.{Result, ok, err, ◌>>=◌}
use openurma_gem5_lab.Checkpoint.{Checkpoint, ends_with}
use openurma_gem5_lab.Config.{Values}
use openurma_gem5_lab.QemuPorts.{Bases}
use openurma_gem5_lab.Platform.{Platform}
use openurma_gem5_lab.Launcher.Process.{
  Process, Spawning, LaunchError, missing_key, invalid_number, invalid_delay, missing_artifact,
  unsafe_directory, no_socket, low_memory,
}

-- The files, processes and sockets that a launch meets.
pub record Host : Type 0 where
  pub platform : Platform
  -- `sys.executable`
  pub python : String
  pub defaults : Dict String Values
  pub checkpoints : List Checkpoint
  pub image_hash : String → Option String
  -- Whether the manifest of a checkpoint says that it is a template.
  pub is_template : String → Bool
  -- The integers of UBSIM_DUAL_UART0 and UBSIM_DUAL_UART1, and those that `qemu_ports` starts from.
  pub uarts : ℤ × ℤ
  pub bases : Bases
  -- The integer of UBSIM_QEMU_HOST_LATENCY_NS, or 500.
  pub host_latency_ns : ℤ
  -- Whether a process of an earlier run lives.
  pub is_running : String → Bool
  pub memory_guard : String → ℕ → String → ℕ
  pub is_file : String → Bool
  pub spawning : Process → Spawning
  pub socket_appears : String → Bool
  pub fabric_connects : Bool

-- `manifest[key]`
unfoldable pub setting : Values → String → Result LaunchError String
setting manifest key = elim (lookup key manifest) [
  | none ↦ err (missing_key key)
  | some value ↦ ok value
]

unfoldable pub number_of : String → Result LaunchError ℤ
number_of text = elim (int_of (codes text)) [ none ↦ err (invalid_number text) | some n ↦ ok n ]

-- `int(manifest[key])`
unfoldable pub number_setting : Values → String → Result LaunchError ℤ
unfolding setting number_of
number_setting manifest key = do text ← setting manifest key; number_of text

-- `_check_memory`
unfoldable pub check_memory : Host → String → ℕ → String → Result LaunchError (Unit {0})
check_memory host phase nodes size =
    if host.memory_guard phase nodes size == 0 then ok tt else err low_memory

-- `_require_files`
unfoldable pub require_files : Host → List String → Result LaunchError (Unit {0})
require_files host [] = ok tt
require_files host (path ∷ rest) =
    let others = require_files host rest in
    if host.is_file path then others else err (missing_artifact path)

-- The guard of `_clear_owned_run_paths`
unfoldable pub check_run_root : String → Result LaunchError (Unit {0})
check_run_root run_root =
    if run_root == "/"
    then err unsafe_directory
    else if run_root == "."
    then err unsafe_directory
    else ok tt

-- `_wait_socket`, for each path
unfoldable pub wait_sockets : Host → List String → Result LaunchError (Unit {0})
wait_sockets host [] = ok tt
wait_sockets host (path ∷ rest) =
    let others = wait_sockets host rest in
    if host.socket_appears path then others else err (no_socket path)

abbrev pub delay_units : List (String × ℕ)
delay_units =
    ("ps", 1) ∷ ("ns", 1000) ∷ ("us", 1000000) ∷ ("ms", 1000000000) ∷ ("s", 1000000000000) ∷ []

unfoldable pub scaled : String → String → ℕ → Result LaunchError ℤ
scaled value unit scale =
    elim (int_of (take (length (codes value) - length (codes unit)) (codes value))) [
      | none ↦ err (invalid_number value)
      | some n ↦ ok (times_ℤ scale n)
    ]

unfoldable pub picoseconds_in : List (String × ℕ) → String → Result LaunchError ℤ
unfolding scaled ends_with
picoseconds_in [] value = err (invalid_delay value)
picoseconds_in ((unit, scale) ∷ rest) value =
    let other = picoseconds_in rest value in
    if ends_with value unit then scaled value unit scale else other

-- `picoseconds`
unfoldable pub picoseconds : String → Result LaunchError ℤ
unfolding picoseconds_in
picoseconds value = picoseconds_in delay_units value

pub check_memory_lem :
    (host : Host) (phase : String) (nodes : ℕ) (size : String) (u : Unit {0})
    → check_memory host phase nodes size ≡ ok u
    → host.memory_guard phase nodes size ≡ 0
unfolding check_memory
check_memory_lem host phase nodes size u h = ground (arith, nat_eq.test_iff)

pub require_files_lem :
    (host : Host) (paths : List String) (u : Unit {0})
    → require_files host paths ≡ ok u
    → All (λ path. host.is_file path ≡ true) paths
unfolding require_files
require_files_lem host [] u h = tt
require_files_lem host (path ∷ rest) u h = elim (Bool-cases (host.is_file path)) [
  | inl there ↦ (there, require_files_lem host rest u (ground arith))
  | inr gone ↦ absurd (ground arith)
]
