-- ===== src/Web/Workbench.antt =====
-- ubsim_lab/web.py: what the handlers of the workbench share, the job of `start_task` and the terminals.
pub mod Exclusive
use mathlib.Core.Path.{subst}
use openurma_gem5_lab.Prelude.{
  ℕ, zero, suc, ◌+◌, ◌≤◌, ◌≡◌, refl, sym, ap, ◌∙◌, inl, inr, String, Bool, true, false, not, ◌&&◌,
  ◌||◌, List, [], ◌∷◌, ◌++◌, ◌==◌, nat_eq, string_eq, pair_eq, HasTest, if◌then◌else◌, contains,
  contains-append, Distinct, All, All-append, Bool-cases, arith,
}
use openurma_gem5_lab.Prelude.Result.{Result, ok, err}

-- `job["state"]`
pub data JobState : Type 0 where
  running finished failed : JobState

-- The simulator and the number of the node.
abbrev pub Key : Type 0
Key = String × ℕ

-- `jobs` has all jobs, the latest first, which is `self.job`; the thread of an earlier one has its own
-- dict still. `sessions` has the terminals that are connected.
pub record Workbench : Type 0 where
  pub jobs : List JobState
  pub terminal_owners : List Key
  pub sessions : List Key

-- Why a handler raises.
pub data Refusal : Type 0 where
  task_starting simulation_active not_spawned terminal_connected : Refusal

unfoldable pub is_running : List JobState → Bool
is_running (running ∷ jobs) = true
is_running _ = false

-- `start_task` under the lock: whether a simulation is active, and whether `Popen` returns.
unfoldable pub start_job : Bool → Bool → Workbench → Result Refusal Workbench
unfolding is_running
start_job active spawned w =
    if is_running w.jobs
    then err task_starting
    else if active
    then err simulation_active
    else if spawned
    then ok (record w { jobs = running ∷ w.jobs })
    else err not_spawned

-- `"finished" if code == 0 else "failed"`
unfoldable pub ended : Bool → JobState
ended true = finished
ended false = failed

-- `terminal_owners.discard(key)`
unfoldable pub discard : {A : Type 0} ⦃e : HasTest A⦄ → A → List A → List A
discard key [] = []
discard key (k ∷ owners) = let rest = discard key owners in if k == key then rest else k ∷ rest

unfoldable pub open_terminal : Key → Workbench → Result Refusal Workbench
open_terminal key w =
    if contains w.terminal_owners key
    then err terminal_connected
    else ok (record w { terminal_owners = key ∷ w.terminal_owners; sessions = key ∷ w.sessions })

-- A handler or a thread that has the lock.
pub data Step (w : Workbench) : Workbench → Type 0 where
  start :
      (active spawned : Bool) (next : Workbench)
      → start_job active spawned w ≡ ok next
      → Step w next
  wait :
      (later earlier : List JobState) (success : Bool)
      → w.jobs ≡ later ++ running ∷ earlier
      → Step w (record w { jobs = later ++ ended success ∷ earlier })
  connect : (key : Key) (next : Workbench) → open_terminal key w ≡ ok next → Step w next
  disconnect :
      (key : Key) (front back : List Key)
      → w.sessions ≡ front ++ key ∷ back
      → Step w
          (record w { terminal_owners = discard key w.terminal_owners; sessions = front ++ back })

pub data Reach : Workbench → Type 0 where
  here : Reach (record { jobs = []; terminal_owners = []; sessions = [] })
  there : {w next : Workbench} → Reach w → Step w next → Reach next
