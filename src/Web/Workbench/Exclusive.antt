-- ===== src/Web/Workbench/Exclusive.antt =====
-- ubsim_lab/web.py: what holds of the workbench in any order of its handlers.
use mathlib.Core.Path.{subst}
use openurma_gem5_lab.Prelude.{
  ℕ, suc, ◌≤◌, ◌≡◌, refl, sym, ap, ◌∙◌, inl, inr, Bool, true, false, not, ◌&&◌, ◌||◌, List, [], ◌∷◌,
  ◌++◌, ◌==◌, nat_eq, string_eq, pair_eq, HasTest, if◌then◌else◌, contains, contains-append,
  Distinct, Bool-cases, arith,
}
use openurma_gem5_lab.Prelude.Result.{ok}
use openurma_gem5_lab.Web.Workbench.{
  JobState, running, finished, failed, Key, Workbench, is_running, start_job, ended, discard,
  open_terminal, Step, start, wait, connect, disconnect, Reach, here, there,
}

unfoldable pub count_running : List JobState → ℕ
count_running [] = 0
count_running (running ∷ jobs) = suc (count_running jobs)
count_running (_ ∷ jobs) = count_running jobs

-- One launch runs at most; a terminal has one session at most, and has an owner while it has one.
pub record IsExclusive (w : Workbench) : Type 0 where
  pub one_job : count_running w.jobs ≤ 1
  pub one_session : Distinct w.sessions
  pub owners : (key : Key) → contains w.terminal_owners key ≡ contains w.sessions key

record IsSafe (w : Workbench) : Type 0 where
  latest : count_running w.jobs ≤ (if is_running w.jobs then 1 else 0)
  one_session : Distinct w.sessions
  owners : (key : Key) → contains w.terminal_owners key ≡ contains w.sessions key

module _ {A : Type 0} ⦃e : HasTest A⦄ where
  contains-discard :
      (key k : A) (owners : List A)
      → contains (discard key owners) k ≡ (not (key == k) && contains owners k)
  unfolding discard
  contains-discard key k [] = ground arith
  contains-discard key k (o ∷ owners) =
      ground
        (arith, contains-discard key k owners, e.test_iff o key, e.test_iff o k, e.test_iff key k)

  -- A session less.
  contains_less :
      (key k : A) (front back : List A)
      → Distinct (front ++ key ∷ back)
      → contains (front ++ back) k ≡ (not (key == k) && contains (front ++ key ∷ back) k)
  contains_less key k [] back d = ground (arith, d.0, e.test_iff key k)
  contains_less key k (f ∷ front) back d = ground (
    arith,
    d.0,
    contains_less key k front back d.1,
    contains-append front (key ∷ back) f,
    e.test_iff key k,
    e.test_iff f k,
    e.test_iff key f,
  )

  Distinct-less :
      (key : A) (front back : List A) → Distinct (front ++ key ∷ back) → Distinct (front ++ back)
  Distinct-less key [] back d = d.1
  Distinct-less key (f ∷ front) back (fresh, d) = (
    ground (arith, contains-append front back f, contains-append front (key ∷ back) f),
    Distinct-less key front back d,
  )

count_ended :
    (later earlier : List JobState) (success : Bool)
    → suc (count_running (later ++ ended success ∷ earlier))
      ≡ count_running (later ++ running ∷ earlier)
unfolding count_running ended
count_ended [] earlier true = refl
count_ended [] earlier false = refl
count_ended (running ∷ later) earlier success = ap suc (count_ended later earlier success)
count_ended (finished ∷ later) earlier success = count_ended later earlier success
count_ended (failed ∷ later) earlier success = count_ended later earlier success

at_most_one : (b : Bool) (n : ℕ) → n ≤ (if b then 1 else 0) → n ≤ 1
at_most_one true n h = h
at_most_one false n h = omega arith

start_job-IsSafe :
    (active spawned : Bool) (w next : Workbench)
    → IsSafe w
    → start_job active spawned w ≡ ok next
    → IsSafe next
unfolding start_job count_running is_running
start_job-IsSafe active spawned w next v h = elim (Bool-cases (is_running w.jobs)) [
  | inl busy ↦ cc (rw busy at h)
  | inr idle ↦ elim (Bool-cases active) [
    | inl up ↦ cc (rw (idle, up) at h)
    | inr down ↦ elim (Bool-cases spawned) [
      | inr lost ↦ cc (rw (idle, down, lost) at h)
      | inl started ↦
          let same : record w { jobs = running ∷ w.jobs } ≡ next =
            cc (rw (idle, down, started) at h) in
          let none : count_running w.jobs ≤ 0 = rw idle at v.latest in
          subst IsSafe same (record {
            latest = omega (arith, none);
            one_session = v.one_session;
            owners = v.owners;
          })
    ]
  ]
]

open_terminal-IsSafe :
    (key : Key) (w next : Workbench) → IsSafe w → open_terminal key w ≡ ok next → IsSafe next
unfolding open_terminal
open_terminal-IsSafe key w next v h = elim (Bool-cases (contains w.terminal_owners key)) [
  | inl taken ↦ cc (rw taken at h)
  | inr free ↦
      let same : record w { terminal_owners = key ∷ w.terminal_owners; sessions = key ∷ w.sessions }
          ≡ next =
        cc (rw free at h) in
      subst IsSafe same (record {
        latest = v.latest;
        one_session = (sym (v.owners key) ∙ free, v.one_session);
        owners = λ k. ap (λ b. key == k || b) (v.owners k);
      })
]

wait-IsSafe :
    (w : Workbench) (later earlier : List JobState) (success : Bool)
    → IsSafe w
    → w.jobs ≡ later ++ running ∷ earlier
    → IsSafe (record w { jobs = later ++ ended success ∷ earlier })
wait-IsSafe w later earlier success v same =
    let one = at_most_one (is_running w.jobs) (count_running w.jobs) v.latest in
    let none : count_running (later ++ ended success ∷ earlier) ≡ 0 =
      omega (arith, one, count_ended later earlier success, ap count_running same) in
    record { latest = rw none (omega arith); one_session = v.one_session; owners = v.owners }

disconnect-IsSafe :
    (w : Workbench) (key : Key) (front back : List Key)
    → IsSafe w
    → w.sessions ≡ front ++ key ∷ back
    → IsSafe
        (record w { terminal_owners = discard key w.terminal_owners; sessions = front ++ back })
disconnect-IsSafe w key front back v same =
    let apart : Distinct (front ++ key ∷ back) = subst Distinct same v.one_session in
    record {
      latest = v.latest;
      one_session = Distinct-less key front back apart;
      owners = λ k.
          contains-discard key k w.terminal_owners
          ∙ ap (λ b. not (key == k) && b) (v.owners k ∙ ap (λ l. contains l k) same)
          ∙ sym (contains_less key k front back apart);
    }

Step-IsSafe : (w next : Workbench) → IsSafe w → Step w next → IsSafe next
Step-IsSafe w next v (start active spawned _ h) = start_job-IsSafe active spawned w next v h
Step-IsSafe w next v (wait later earlier success same) = wait-IsSafe w later earlier success v same
Step-IsSafe w next v (connect key _ h) = open_terminal-IsSafe key w next v h
Step-IsSafe w next v (disconnect key front back same) = disconnect-IsSafe w key front back v same

Reach-IsSafe : (w : Workbench) → Reach w → IsSafe w
unfolding count_running is_running
Reach-IsSafe _ here = record { latest = omega arith; one_session = tt; owners = λ key. refl }
Reach-IsSafe _ (there {w} {next} reach step) = Step-IsSafe w next (Reach-IsSafe w reach) step

-- In any order of the handlers and threads: one launch runs at most, and a terminal is connected once at
-- most; it is refused as long as it is connected, and no longer.
pub Reach-IsExclusive : (w : Workbench) → Reach w → IsExclusive w
Reach-IsExclusive w reach =
    let v = Reach-IsSafe w reach in
    record {
      one_job = at_most_one (is_running w.jobs) (count_running w.jobs) v.latest;
      one_session = v.one_session;
      owners = v.owners;
    }
