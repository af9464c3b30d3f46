-- ===== src/Launcher/Process.antt =====
-- ubsim_lab/config_launcher.py: `_spawn`, the waits, and the processes that a launch has started.
pub mod Kept
pub mod Guarded
use openurma_gem5_lab.Prelude.{
  Bool, true, false, ℕ, String, List, [], ◌∷◌, ◌++◌, Option, some, none, map,
}
use openurma_gem5_lab.Prelude.Result.{Result, ok, err}
use openurma_gem5_lab.Config.{ConfigError}
use openurma_gem5_lab.QemuPorts.{PortError}

-- A command, which runs under `nohup`, with the file for its number; `none` is the launcher's own environment, else the
-- variables are put into a copy of it.
pub record Process : Type 0 where
  pub pidfile : String
  pub command : List String
  pub environment : Option (List (String × String))

-- The exceptions that leave a launch.
pub data LaunchError : Type 0 where
  bad_config : ConfigError → LaunchError
  bad_ports : PortError → LaunchError
  missing_key missing_artifact no_socket invalid_delay invalid_number not_spawned :
      String → LaunchError
  template_profile already_running low_memory unsafe_directory invalid_icount no_fabric no_machine :
      LaunchError

-- How `_spawn` ends: before the process runs, after it has been noted, or between the two, when the
-- file for its number cannot be written.
pub data Spawning : Type 0 where
  refused noted unrecorded : Spawning

pub data Event : Type 0 where
  launched stopped : Process → Event

-- What happened to processes so far, and the list `started`.
pub record World : Type 0 where
  pub events : List Event
  pub started : List Process

abbrev pub untouched : World
untouched = record { events = []; started = [] }

-- Code that may raise, and starts processes.
abbrev pub Launch {ℓ} : Type ℓ → Type ℓ
Launch A = World → Result LaunchError A × World

infixl 5 ◌>>=◌ ◌>>◌
unfoldable pub then_run {ℓ κ} :
    {A : Type ℓ} {B : Type κ}
    → Result LaunchError A × World
    → (A → Launch B)
    → Result LaunchError B × World
then_run (ok a, w) f = f a w
then_run (err e, w) f = (err e, w)

unfoldable pub ◌>>=◌ {ℓ κ} : {A : Type ℓ} {B : Type κ} → Launch A → (A → Launch B) → Launch B
unfolding then_run
(m >>= f) w = then_run (m w) f

abbrev pub ◌>>◌ {ℓ κ} : {A : Type ℓ} {B : Type κ} → Launch A → Launch B → Launch B
m >> k = m >>= λ _. k

-- Code that starts no process.
abbrev pub calc {ℓ} : {A : Type ℓ} → Result LaunchError A → Launch A
calc r w = (r, w)

-- `if condition: raise e`
abbrev pub refuse_if : Bool → LaunchError → Launch (Unit {0})
refuse_if true e = calc (err e)
refuse_if false e = calc (ok tt)

module _ (spawning : Process → Spawning) where
  note : Spawning → Process → Launch (Unit {0})
  note refused p w = (err (not_spawned p.pidfile), w)
  note unrecorded p w = (
    err (not_spawned p.pidfile),
    record { events = w.events ++ launched p ∷ []; started = w.started },
  )
  note noted p w =
      (ok tt, record { events = w.events ++ launched p ∷ []; started = w.started ++ p ∷ [] })

  -- `_spawn`
  unfoldable pub spawn : Process → Launch (Unit {0})
  unfolding note
  spawn p = note (spawning p) p

-- `for process in reversed(started): process.terminate()`
unfoldable pub terminated : List Process → List Event
terminated [] = []
terminated (p ∷ rest) = terminated rest ++ stopped p ∷ []

-- The handler of `BaseException` around the body of a launch.
unfoldable pub rolled_back {ℓ} :
    {A : Type ℓ} → Result LaunchError A × World → Result LaunchError A × World
unfolding terminated
rolled_back (ok a, w) = (ok a, w)
rolled_back (err e, w) =
    (err e, record { events = w.events ++ terminated w.started; started = w.started })

-- `try` around a body, with this handler.
unfoldable pub undoing {ℓ} : {A : Type ℓ} → Launch A → Launch A
unfolding rolled_back
undoing m w = rolled_back (m w)
