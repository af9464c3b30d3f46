-- ===== src/Launcher/Process/Kept.antt =====
-- ubsim_lab/config_launcher.py: what every part of a launch leaves behind.
use openurma_gem5_lab.Launcher.Process.{
  refuse_if, not_spawned, Process, LaunchError, Spawning, unrecorded, noted, refused, Event,
  launched, World, Launch, then_run, ◌>>=◌, calc, note, spawn,
}
use openurma_gem5_lab.Prelude.{
  Bool, true, false, ◌≡◌, refl, sym, ap, ◌∙◌, ◌⊎◌, inl, inr, String, List, [], ◌∷◌, ◌++◌, map,
  Option, some, none,
}
use mathlib.Core.List.{append-nil, append_assoc, map-append}
use openurma_gem5_lab.Prelude.Result.{Result, ok, err}

-- The part came to its end: it started `processes`, whose numbers stand in the files `pidfiles`.
pub record IsDone {ℓ} {A : Type ℓ} (pidfiles : List String) (w : World)
    (o : Result LaunchError A × World) : Type ℓ where
  pub value : A
  pub processes : List Process
  pub named : map (λ p. p.pidfile) processes ≡ pidfiles
  pub outcome : o ≡ (
    ok value,
    record { events = w.events ++ map launched processes; started = w.started ++ processes },
  )

abbrev pub as_list : Option Process → List Process
as_list none = []
as_list (some p) = p ∷ []

-- The part raised: it started `processes`, and a last one that it could not record.
pub record IsBroken {ℓ} {A : Type ℓ} (spawning : Process → Spawning) (w : World)
    (o : Result LaunchError A × World) : Type ℓ where
  pub error : LaunchError
  pub processes : List Process
  pub lost : Option Process
  pub reason : (p : Process) → lost ≡ some p → spawning p ≡ unrecorded
  pub outcome : o ≡ (
    err error,
    record {
      events = w.events ++ map launched (processes ++ as_list lost);
      started = w.started ++ processes;
    },
  )

-- Wherever the part begins, it starts the processes of `pidfiles` in this order, or raises.
pub record Starts {ℓ} {A : Type ℓ} (spawning : Process → Spawning) (pidfiles : List String)
    (m : Launch A) : Type ℓ where
  pub each : (w : World) → IsDone pidfiles w (m w) ⊎ IsBroken spawning w (m w)

module _ (spawning : Process → Spawning) where
  calc_value :
      {A : Type 0} (r : Result LaunchError A) (w : World)
      → IsDone [] w (calc r w) ⊎ IsBroken spawning w (calc r w)
  calc_value (ok a) w = inl (record {
    value = a;
    processes = [];
    named = refl;
    outcome = rw (append-nil w.events, append-nil w.started) refl;
  })
  calc_value (err e) w = inr (record {
    error = e;
    processes = [];
    lost = none;
    reason = λ p h. cc;
    outcome = rw (append-nil w.events, append-nil w.started) refl;
  })

  pub Starts-calc : {A : Type 0} (r : Result LaunchError A) → Starts spawning [] (calc r)
  Starts-calc r = record { each = calc_value r }

  pub Starts-refuse_if : (b : Bool) (e : LaunchError) → Starts spawning [] (refuse_if b e)
  Starts-refuse_if true e = Starts-calc (err e)
  Starts-refuse_if false e = Starts-calc (ok tt)

  spawned :
      (p : Process) (s : Spawning) (w : World)
      → spawning p ≡ s
      → IsDone (p.pidfile ∷ []) w (note spawning s p w) ⊎ IsBroken spawning w (note spawning s p w)
  unfolding note
  spawned p refused w h = inr (record {
    error = not_spawned p.pidfile;
    processes = [];
    lost = none;
    reason = λ q k. cc;
    outcome = rw (append-nil w.events, append-nil w.started) refl;
  })
  spawned p unrecorded w h = inr (record {
    error = not_spawned p.pidfile;
    processes = [];
    lost = some p;
    reason = λ q k. let same : p ≡ q = cc in ap spawning (sym same) ∙ h;
    outcome = rw (append-nil w.started) refl;
  })
  spawned p noted w h =
      inl (record { value = tt; processes = p ∷ []; named = refl; outcome = refl })

  pub Starts-spawn : (p : Process) → Starts spawning (p.pidfile ∷ []) (spawn spawning p)
  unfolding spawn
  Starts-spawn p = record { each = λ w. spawned p (spawning p) w refl }

  -- Two stretches of events in a row.
  in_a_row :
      (w : World) (ps qs : List Process)
      → (w.events ++ map launched ps) ++ map launched qs ≡ w.events ++ map launched (ps ++ qs)
  in_a_row w ps qs =
      append_assoc w.events (map launched ps) (map launched qs)
      ∙ ap (λ es. w.events ++ es) (sym (map-append launched ps qs))

  same_world :
      {A : Type 0} (r : Result LaunchError A) {es fs : List Event} {ss ts : List Process}
      → es ≡ fs
      → ss ≡ ts
      → ◌≡◌ {A = Result LaunchError A × World}
          (r, record { events = es; started = ss })
          (r, record { events = fs; started = ts })
  same_world r h k = λ i. (r, record { events = h i; started = k i })

  after :
      {A B : Type 0} {ps qs : List String} (m : Launch A) (f : A → Launch B) (w : World)
      → (done : IsDone ps w (m w))
      → IsDone qs
          (record {
            events = w.events ++ map launched done.processes;
            started = w.started ++ done.processes;
          })
          (f done.value (record {
            events = w.events ++ map launched done.processes;
            started = w.started ++ done.processes;
          }))
        ⊎ IsBroken spawning
            (record {
              events = w.events ++ map launched done.processes;
              started = w.started ++ done.processes;
            })
            (f done.value (record {
              events = w.events ++ map launched done.processes;
              started = w.started ++ done.processes;
            }))
      → IsDone (ps ++ qs) w ((m >>= f) w) ⊎ IsBroken spawning w ((m >>= f) w)
  unfolding ◌>>=◌ then_run
  after m f w done (inl more) = inl (record {
    value = more.value;
    processes = done.processes ++ more.processes;
    named =
        map-append (λ p. p.pidfile) done.processes more.processes
        ∙ rw (done.named, more.named) refl;
    outcome =
        ap (λ o. then_run o f) done.outcome
        ∙ more.outcome
        ∙ same_world (ok more.value) (in_a_row w done.processes more.processes)
            (append_assoc w.started done.processes more.processes);
  })
  after m f w done (inr broken) = inr (record {
    error = broken.error;
    processes = done.processes ++ broken.processes;
    lost = broken.lost;
    reason = broken.reason;
    outcome =
        ap (λ o. then_run o f) done.outcome
        ∙ broken.outcome
        ∙ same_world (err broken.error)
            (in_a_row w done.processes (broken.processes ++ as_list broken.lost)
              ∙ ap (λ ps. w.events ++ map launched ps)
                  (sym (append_assoc done.processes broken.processes (as_list broken.lost))))
            (append_assoc w.started done.processes broken.processes);
  })

  early :
      {A B : Type 0} (m : Launch A) (f : A → Launch B) (w : World)
      → IsBroken spawning w (m w)
      → IsBroken spawning w ((m >>= f) w)
  unfolding ◌>>=◌ then_run
  early m f w broken = record {
    error = broken.error;
    processes = broken.processes;
    lost = broken.lost;
    reason = broken.reason;
    outcome = ap (λ o. then_run o f) broken.outcome;
  }

  pub Starts-bind :
      {A B : Type 0} {ps qs : List String} (m : Launch A) (f : A → Launch B)
      → Starts spawning ps m
      → ((a : A) → Starts spawning qs (f a))
      → Starts spawning (ps ++ qs) (m >>= f)
  Starts-bind m f first rest = record {
    each = λ w. elim (first.each w) [
      | inl done ↦ after m f w done ((rest done.value).each _)
      | inr broken ↦ inr (early m f w broken)
    ];
  }
