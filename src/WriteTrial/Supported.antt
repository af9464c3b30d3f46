-- ===== src/WriteTrial/Supported.antt =====
-- tools/check_qemu_write_trial.py: what a command that `command_config` accepts says.
use openurma_gem5_lab.Prelude.{
  ℕ, ◌+◌, sym, index_of, get_elem?, ◌≡◌, refl, ap, ◌∙◌, ◌||◌, not, String, true, List, some, All,
  contains, leb, ◌==◌, nat_eq, string_eq,
}
use openurma_gem5_lab.Prelude.Dict.{lookup, keys}
use mathlib.Core.Path.{subst}
use openurma_gem5_lab.Prelude.Result.{ok, Ensures-bind, Ensures-ok}
use openurma_gem5_lab.WriteTrial.Command.{Role, TrialConfig, count_of, command_config}
use openurma_gem5_lab.Prelude.{get_elem?}
use openurma_gem5_lab.Prelude.{index_of}
use openurma_gem5_lab.Prelude.{◌+◌}
use openurma_gem5_lab.WriteTrial.Flags.{
  IsRanged, IsNamed, IsWorded, IsFlagged, IsSide, require_lem, has_once_lem, check_role-IsSide,
  flags_for-IsFlagged, only_verb-IsNamed, value_of_flag_lem, flag_values-IsRead,
}

-- The command names each of its flags once, and the trial is one of those that the audit can count.
pub record IsSupported (args : List String) (role : Role) (config : TrialConfig) : Type 0 where
  pub verb : IsNamed args config.verb
  pub one_way : (config.bidirectional || config.verb == "read") ≡ true
  pub directed : config.bidirectional ≡ contains args "-B"
  pub flags : IsFlagged args config.verb (keys config.values)
  pub once : All (λ flag. count_of flag args ≡ 1) (keys config.values)
  pub ranges : All IsRanged config.values
  pub read : All (IsWorded args) config.values
  pub transport : count_of "--ctp" args ≡ 1
  pub device : count_of "-d" args ≡ 1
  pub udma0 : get_elem? args (index_of "-d" args + 1) ≡ some "udma0"
  pub eid : count_of "--eid_idx" args ≡ 1
  pub eid_zero : get_elem? args (index_of "--eid_idx" args + 1) ≡ some "0"
  pub single : lookup "-J" config.values ≡ some 1
  pub inline : ℕ
  pub inlined : lookup "-I" config.values ≡ some inline
  pub not_inline : (not (config.verb == "read") || inline == 0) ≡ true
  pub size : ℕ
  pub sized : lookup "-s" config.values ≡ some size
  pub short_send : (not (config.verb == "send") || leb size 4096) ≡ true
  pub side : IsSide args role

-- A command that `command_config` accepts names one verb and gives each flag of its configuration once, with a positive
-- number behind it (0 is allowed for `-I`), and `-R` among them if it reads or sends; it runs over one
-- Jetty and the CTP transport on udma0 with the EID index 0, in both directions unless it reads; a
-- read is not inline, a send is of 4096 bytes at most; a server's command has no `-S`, and the
-- client's has one, in front of 10.0.0.1.
pub command_config-IsSupported :
    (args : List String) (role : Role) (config : TrialConfig)
    → command_config args role ≡ ok config
    → IsSupported args role config
unfolding command_config
command_config-IsSupported args role config h =
    (Ensures-bind {P = IsSupported args role} _ _ λ verb only. Ensures-bind _ _ λ _ _.
        Ensures-bind _ _ λ u one_way. Ensures-bind _ _ λ _ _. Ensures-bind _ _ λ _ _.
          Ensures-bind _ _ λ v transport. Ensures-bind _ _ λ x device. Ensures-bind _ _ λ e eid.
            Ensures-bind _ _ λ y sides. Ensures-bind _ _ λ values read.
              Ensures-bind _ _ λ jettys found_jettys. Ensures-bind _ _ λ z one.
                Ensures-bind _ _ λ inline found_inline. Ensures-bind _ _ λ a not_inline.
                  Ensures-bind _ _ λ size found_size. Ensures-bind _ _ λ b short.
                    Ensures-bind _ _ λ _ _.
                      let all_read = (flag_values-IsRead args _).holds values read in
                      Ensures-ok _ (record {
                        verb = only_verb-IsNamed args verb only;
                        one_way = require_lem _ _ u one_way;
                        directed = refl;
                        flags =
                            subst (IsFlagged args verb) (sym all_read.listed)
                              (flags_for-IsFlagged verb args);
                        once = all_read.once;
                        ranges = all_read.ranges;
                        transport = (nat_eq.test_iff _ 1).0 (require_lem _ _ v transport);
                        read = all_read.read;
                        device = (has_once_lem args _ _ (require_lem _ _ x device)).0;
                        udma0 = (has_once_lem args _ _ (require_lem _ _ x device)).1;
                        eid = (has_once_lem args _ _ (require_lem _ _ e eid)).0;
                        eid_zero = (has_once_lem args _ _ (require_lem _ _ e eid)).1;
                        single =
                            value_of_flag_lem values "-J" jettys found_jettys
                            ∙ ap some ((nat_eq.test_iff jettys 1).0 (require_lem _ _ z one));
                        inline = inline;
                        inlined = value_of_flag_lem values "-I" inline found_inline;
                        not_inline = require_lem _ _ a not_inline;
                        size = size;
                        sized = value_of_flag_lem values "-s" size found_size;
                        short_send = require_lem _ _ b short;
                        side = check_role-IsSide role args sides;
                      })).holds
      config h
