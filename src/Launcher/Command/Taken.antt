-- ===== src/Launcher/Command/Taken.antt =====
-- ubsim_lab/config_launcher.py: every option of gem5 gets its setting.
use mathlib.Core.Path.{subst}
use openurma_gem5_lab.Prelude.{
  ℕ, String, ◌<>◌, Bool, true, List, [], ◌∷◌, Option, some, none, ◌==◌, string_eq, contains, All,
  contains-middle, ◌≡◌, inl, inr, Bool-cases, arith,
}
use openurma_gem5_lab.Prelude.Dict.{lookup}
use openurma_gem5_lab.Prelude.Result.{Result, ok, err, Ensures, Ensures-bind, Ensures-ok}
use openurma_gem5_lab.Config.{Values}
use openurma_gem5_lab.Launcher.Process.{LaunchError, missing_key}
use openurma_gem5_lab.Launcher.Settings.{Host, setting}
use openurma_gem5_lab.Launcher.Options.{gem5_options, gem5_key}
use openurma_gem5_lab.Launcher.Options.Table.{option_settings, All-option_settings}
use openurma_gem5_lab.Launcher.Command.{option_args, gem5_command}

-- The arguments have the option with the value of its setting.
record IsTaken (manifest : Values) (option : String) (args : List String) : Type 0 where
  pub value : String
  pub set : lookup (gem5_key option) manifest ≡ some value
  pub passed : contains args ("--" <> option <> "=" <> value) ≡ true

pub setting_lem :
    (manifest : Values) (key value : String)
    → setting manifest key ≡ ok value
    → lookup key manifest ≡ some value
unfolding setting
setting_lem manifest key value h = found (lookup key manifest) h
  where
    found :
        (o : Option String)
        → ◌≡◌ {A = Result LaunchError String}
            (elim o [ none ↦ err (missing_key key) | some v ↦ ok v ])
            (ok value)
        → o ≡ some value
    found none h = cc
    found (some v) h = cc

option_args-IsTaken :
    (manifest : Values) (options : List String) (option : String)
    → contains options option ≡ true
    → Ensures (IsTaken manifest option) (option_args manifest options)
unfolding option_args
option_args-IsTaken manifest [] option h = absurd (cc)
option_args-IsTaken manifest (o ∷ rest) option h = Ensures-bind _ _ λ value found.
    Ensures-bind _ _ λ others read. Ensures-ok _ (elim (Bool-cases (o == option)) [
      | inl here ↦
          let same : o ≡ option = (string_eq.test_iff o option).0 here in
          subst (λ p. IsTaken manifest p (("--" <> o <> "=" <> value) ∷ others)) same
            (record {
              value = value;
              set = setting_lem manifest (gem5_key o) value found;
              passed = ground (
                arith,
                string_eq.test_iff ("--" <> o <> "=" <> value) ("--" <> o <> "=" <> value),
              );
            })
      | inr later ↦
          let more = (option_args-IsTaken manifest rest option (ground arith)).holds others read in
          record { value = more.value; set = more.set; passed = ground (arith, more.passed) }
    ])

gem5_command-IsTaken :
    (host : Host) (manifest : Values) (node : ℕ) (run_root : String) (checkpoint : Option String)
    (template : Bool) (command : List String) (option : String)
    → contains gem5_options option ≡ true
    → gem5_command host manifest node run_root checkpoint template ≡ ok command
    → IsTaken manifest option command
unfolding gem5_command
gem5_command-IsTaken host manifest node run_root checkpoint template command option member h =
    (Ensures-bind {P = IsTaken manifest option} _ _ λ initrd _. Ensures-bind _ _ λ options read.
        Ensures-bind _ _ λ _ _. Ensures-bind _ _ λ _ _. Ensures-bind _ _ λ _ _.
          Ensures-bind _ _ λ _ _. Ensures-bind _ _ λ _ _.
            let taken =
              (option_args-IsTaken manifest gem5_options option member).holds options read in
            Ensures-ok _ (record {
              value = taken.value;
              set = taken.set;
              passed =
                  contains-middle (_ ∷ _ ∷ _ ∷ _ ∷ _ ∷ _ ∷ _ ∷ _ ∷ []) options _ _ taken.passed;
            })).holds
      command h

-- The arguments have the option with the value of the setting.
pub record IsPassed (manifest : Values) (args : List String) (entry : String × String)
    : Type 0 where
  pub value : String
  pub set : lookup entry.1 manifest ≡ some value
  pub passed : contains args ("--" <> entry.0 <> "=" <> value) ≡ true

-- If the command of a node can be put together, then it passes each of the listed options of gem5 with
-- the value of the setting beside it in the list.
pub gem5_command-IsPassed :
    (host : Host) (manifest : Values) (node : ℕ) (run_root : String) (checkpoint : Option String)
    (template : Bool) (command : List String)
    → gem5_command host manifest node run_root checkpoint template ≡ ok command
    → All (IsPassed manifest command) option_settings
gem5_command-IsPassed host manifest node run_root checkpoint template command h =
    All-option_settings (IsPassed manifest command) λ option member.
      let taken =
        gem5_command-IsTaken host manifest node run_root checkpoint template command option member
          h in
      record { value = taken.value; set = taken.set; passed = taken.passed }
