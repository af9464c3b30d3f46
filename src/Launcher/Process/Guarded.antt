-- ===== src/Launcher/Process/Guarded.antt =====
-- ubsim_lab/config_launcher.py: how a launch ends that stops what it started if it raises.
use openurma_gem5_lab.Prelude.{
  ◌≢◌, sym, ap, refl, ◌≡◌, inl, inr, String, List, [], ◌++◌, map, Option, some, none,
}
use openurma_gem5_lab.Launcher.Process.{
  terminated, stopped, rolled_back, undoing, untouched, Process, LaunchError, Spawning, unrecorded,
  launched, World, Launch, then_run, ◌>>=◌, calc,
}
use mathlib.Core.Path.{subst}
use mathlib.Core.List.{reverse, reverse-append, map-append}
use openurma_gem5_lab.Prelude.Result.{Result, ok, err}
use openurma_gem5_lab.Launcher.Process.Kept.{Starts, as_list}
use mathlib.Core.List.{◌∷◌}
use mathlib.Core.Path.{◌≡⟨◌⟩◌}
use mathlib.Core.Path.{◌∎}

-- The processes of `pidfiles` run, and none was stopped.
pub record IsUp (pidfiles : List String) (w : World) : Type 0 where
  pub processes : List Process
  pub named : map (λ p. p.pidfile) processes ≡ pidfiles
  pub running : w.events ≡ map launched processes

-- The noted processes were stopped after the last launch, the latest first; the last launch may be of
-- one more process, whose number could not be recorded.
pub record IsUndone (spawning : Process → Spawning) (w : World) : Type 0 where
  pub processes : List Process
  pub lost : Option Process
  pub reason : (p : Process) → lost ≡ some p → spawning p ≡ unrecorded
  pub stopping :
      w.events ≡ map launched (processes ++ as_list lost) ++ map stopped (reverse processes)

-- How a guarded launch from nothing ends.
pub data Ending {ℓ} {A : Type ℓ} (spawning : Process → Spawning) (pidfiles : List String)
    (o : Result LaunchError A × World) : Type ℓ where
  up : (a : A) → (o.0 ≡ ok a) → IsUp pidfiles o.1 → Ending spawning pidfiles o
  undone : (e : LaunchError) → (o.0 ≡ err e) → IsUndone spawning o.1 → Ending spawning pidfiles o

terminated_lem : (processes : List Process) → terminated processes ≡ map stopped (reverse processes)
unfolding terminated
terminated_lem [] = refl
terminated_lem (p ∷ rest) =
    terminated rest ++ stopped p ∷ []
    ≡⟨ ap (λ events. events ++ stopped p ∷ []) (terminated_lem rest) ⟩
      map stopped (reverse rest) ++ stopped p ∷ []
    ≡⟨ sym (map-append stopped (reverse rest) (p ∷ [])) ⟩ map stopped (reverse rest ++ p ∷ [])
    ≡⟨ ap (map stopped) (sym (reverse-append (p ∷ []) rest)) ⟩ map stopped (reverse (p ∷ rest)) ∎

pub Starts-undoing :
    (spawning : Process → Spawning) {A : Type 0} {pidfiles : List String} (m : Launch A)
    → Starts spawning pidfiles m
    → Ending spawning pidfiles (undoing m untouched)
unfolding undoing rolled_back
Starts-undoing spawning {A} {pidfiles} m s = elim (s.each untouched) [
  | inl done ↦ rw (done.outcome) (
      up done.value refl
        (record { processes = done.processes; named = done.named; running = refl }))
  | inr broken ↦ rw (broken.outcome) (
      undone broken.error refl (record {
        processes = broken.processes;
        lost = broken.lost;
        reason = broken.reason;
        stopping =
            ap (λ events. map launched (broken.processes ++ as_list broken.lost) ++ events)
              (terminated_lem broken.processes);
      }))
]

module _ {A B : Type 0} {spawning : Process → Spawning} {pidfiles : List String} where
  -- The value that is returned behind the guarded part.
  pub Ending-then_run :
      (o : Result LaunchError A × World) (b : B)
      → Ending spawning pidfiles o
      → Ending spawning pidfiles (then_run o (λ a w. (ok b, w)))
  unfolding then_run
  Ending-then_run (ok a, w) b (up a' h u) = up b refl u
  Ending-then_run (ok a, w) b (undone e h u) = absurd (cc)
  Ending-then_run (err e, w) b (up a' h u) = absurd (cc)
  Ending-then_run (err e, w) b (undone e' h u) = undone e refl u

pub then_run_value :
    {A B : Type 0} (o : Result LaunchError A × World) (b c : B) (w : World)
    → then_run o (λ a w'. (ok b, w')) ≡ (ok c, w)
    → b ≡ c
unfolding then_run
then_run_value (ok a, w') b c w h = cc
then_run_value (err e, w') b c w h = absurd (cc)

module _ {A : Type 0} {spawning : Process → Spawning} {pidfiles : List String} where
  pub Ending-IsUp :
      (o : Result LaunchError A × World) (a : A)
      → Ending spawning pidfiles o
      → o.0 ≡ ok a
      → IsUp pidfiles o.1
  Ending-IsUp o a (up a' h u) k = u
  Ending-IsUp o a (undone e h u) k = absurd (cc)

  pub Ending-IsUndone :
      (o : Result LaunchError A × World) (e : LaunchError)
      → Ending spawning pidfiles o
      → o.0 ≡ err e
      → IsUndone spawning o.1
  Ending-IsUndone o e (up a h u) k = absurd (cc)
  Ending-IsUndone o e (undone e' h u) k = u

module _ (spawning : Process → Spawning) where
  -- A guarded launch that returns the run's directory.
  pub guarded_IsUp :
      {A : Type 0} (m : Launch A) (files : String → List String) (root directory : String)
      (w : World)
      → Starts spawning (files root) m
      → (undoing m >>= λ _. calc (ok root)) untouched ≡ (ok directory, w)
      → IsUp (files directory) w
  unfolding ◌>>=◌
  guarded_IsUp m files root directory w s h =
      subst (λ d. IsUp (files d) w) (then_run_value _ root directory w h)
        (subst (λ o. IsUp (files root) o.1) h
          (Ending-IsUp _ directory (Ending-then_run _ root (Starts-undoing spawning m s))
            (ap (λ o. o.0) h)))

  pub guarded_IsUndone :
      {A : Type 0} {files : List String} (m : Launch A) (root : String) (e : LaunchError)
      (w : World)
      → Starts spawning files m
      → (undoing m >>= λ _. calc (ok root)) untouched ≡ (err e, w)
      → IsUndone spawning w
  unfolding ◌>>=◌
  guarded_IsUndone m root e w s h =
      subst (λ o. IsUndone spawning o.1) h
        (Ending-IsUndone _ e (Ending-then_run _ root (Starts-undoing spawning m s))
          (ap (λ o. o.0) h))

  -- Without its preparation a launch starts nothing.
  pub prepared_IsUp :
      {P A : Type 0} {files : List String} (r : Result LaunchError P) (f : P → Launch A) (a : A)
      (w : World)
      → ((p : P) → r ≡ ok p → f p untouched ≡ (ok a, w) → IsUp files w)
      → (calc r >>= f) untouched ≡ (ok a, w)
      → IsUp files w
  unfolding ◌>>=◌ then_run
  prepared_IsUp (ok p) f a w k h = k p refl h
  prepared_IsUp (err e) f a w k h = absurd (cc)

  pub prepared_IsUndone :
      {P A : Type 0} (r : Result LaunchError P) (f : P → Launch A) (e : LaunchError) (w : World)
      → ((p : P) → r ≡ ok p → f p untouched ≡ (err e, w) → IsUndone spawning w)
      → (calc r >>= f) untouched ≡ (err e, w)
      → IsUndone spawning w
  unfolding ◌>>=◌ then_run terminated
  prepared_IsUndone (ok p) f e w k h = k p refl h
  prepared_IsUndone (err e') f e w k h =
      subst (λ o. IsUndone spawning o.1) h
        (record { processes = []; lost = none; reason = λ q j. absurd (cc); stopping = refl })

-- A launch whose preparation raises has launched nothing.
pub launched_prepared :
    {P A : Type 0} (r : Result LaunchError P) (f : P → Launch A) (o : Result LaunchError A × World)
    → (calc r >>= f) untouched ≡ o
    → o.1.events ≢ []
    → (p : P) × (r ≡ ok p)
unfolding ◌>>=◌ then_run
launched_prepared (ok p) f o h some_event = (p, refl)
launched_prepared (err e) f o h some_event = absurd (some_event (ap (λ x. x.1.events) (sym h)))
