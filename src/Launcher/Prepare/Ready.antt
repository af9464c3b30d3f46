-- ===== src/Launcher/Prepare/Ready.antt =====
-- ubsim_lab/config_launcher.py: what `start_gem5` has checked before its first process.
use openurma_gem5_lab.Prelude.{
  ◌≡◌, refl, sym, ◌∙◌, ◌<>◌, ◌==◌, String, [], ◌∷◌, true, false, All, length, some, string_eq,
  if◌then◌else◌,
}
use openurma_gem5_lab.Prelude.Dict.{lookup, insert, lookup-insert}
use openurma_gem5_lab.Prelude.Result.{
  Result, ok, err, Ensures, Ensures-bind, Ensures-ok, Ensures-raise_if,
}
use openurma_gem5_lab.Config.{Values, Spec, ConfigError, resolve_gem5}
use openurma_gem5_lab.Platform.{environ_or, device_binary, adapter_binary}
use openurma_gem5_lab.Launcher.Process.{LaunchError, bad_config}
use openurma_gem5_lab.Topology.Plan.{Plan}
use openurma_gem5_lab.Launcher.Settings.{Host, setting, check_memory_lem, require_files_lem}
use openurma_gem5_lab.Launcher.Command.{gem5_binary, gem5_config, gem5_kernel}
use openurma_gem5_lab.Launcher.Command.Taken.{setting_lem}
use openurma_gem5_lab.Launcher.Devices.{device_of_gem5, switch_of_gem5}
use openurma_gem5_lab.Launcher.Prepare.{settings_of, prepare_gem5}

-- No process lives in the directory, the memory guard accepts the number of hosts with the memory of
-- the resolved settings, and the files are there.
pub record IsReady (host : Host) (spec : Spec) (plan : Plan) : Type 0 where
  pub free :
      host.is_running (environ_or host.platform "UBSIM_DUAL_OUT" (host.platform.root <> "run-dual"))
      ≡ false
  pub settings : Values
  pub resolved : resolve_gem5 host.platform.root host.defaults spec plan ≡ ok settings
  pub size : String
  pub sized : lookup "memory_size" settings ≡ some size
  pub memory : host.memory_guard "start" (length plan.node_ids) size ≡ 0
  pub image : String
  pub booted : lookup "initrd_path" settings ≡ some image
  pub files :
      All
        (λ path. host.is_file path ≡ true)
        (environ_or host.platform "UBSIM_GEM5" (
            host.platform.root
            <> (if host.platform.darwin
                then "gem5/build/ARM_MAC/gem5.opt"
                else "gem5/build/ARM/gem5.opt"))
          ∷ environ_or host.platform "UBSIM_CONFIG" (host.platform.root <> "configs/arm64_fs.py")
          ∷ image
          ∷ environ_or host.platform "UBSIM_UDMA_DEVICE_BINARY" (device_binary host.platform)
          ∷ environ_or host.platform "UBSIM_UB_SWITCH_BINARY" (adapter_binary host.platform)
          ∷ environ_or host.platform "UBSIM_KERNEL"
              (host.platform.root <> "artifacts/kernel-64k-20261015/vmlinux")
          ∷ [])

settings_of-resolve_gem5 :
    (host : Host) (spec : Spec) (plan : Plan) (settings : Values)
    → settings_of host spec plan ≡ ok settings
    → resolve_gem5 host.platform.root host.defaults spec plan ≡ ok settings
unfolding settings_of
settings_of-resolve_gem5 host spec plan settings h =
    read (resolve_gem5 host.platform.root host.defaults spec plan) h
  where
    read :
        (r : Result ConfigError Values)
        → ◌≡◌ {A = Result LaunchError Values}
            (elim r [ err e ↦ err (bad_config e) | ok values ↦ ok values ])
            (ok settings)
        → r ≡ ok settings
    read (ok values) e = cc
    read (err f) e = cc

-- A setting of the run is one that was resolved, but for the checkpoint.
resolved_setting :
    (settings : Values) (checkpoint key value : String)
    → ("restore_checkpoint" == key) ≡ false
    → setting (insert "restore_checkpoint" checkpoint settings) key ≡ ok value
    → lookup key settings ≡ some value
resolved_setting settings checkpoint key value other h =
    sym (lookup-insert key "restore_checkpoint" checkpoint settings ∙ (rw other refl))
    ∙ setting_lem _ key value h

pub prepare_gem5-IsReady :
    (host : Host) (spec : Spec) (plan : Plan)
    → Ensures (λ p. IsReady host spec plan) (prepare_gem5 host spec plan)
unfolding prepare_gem5 gem5_binary gem5_config gem5_kernel device_of_gem5 switch_of_gem5
prepare_gem5-IsReady host spec plan = Ensures-bind _ _ λ values resolved.
    Ensures-bind _ _ λ selected _. Ensures-bind _ _ λ _ _. Ensures-raise_if _ _ _ λ free.
      Ensures-bind _ _ λ size sized. Ensures-bind _ _ λ u memory. Ensures-bind _ _ λ sample _.
        Ensures-bind _ _ λ image booted. Ensures-bind _ _ λ v files. Ensures-bind _ _ λ _ _.
          Ensures-bind _ _ λ virtual_time _. Ensures-ok _ (record {
            free = free;
            settings = values;
            resolved = settings_of-resolve_gem5 host spec plan values resolved;
            size = size;
            sized = resolved_setting values _ "memory_size" size refl sized;
            memory = check_memory_lem host _ _ _ u memory;
            image = image;
            booted = resolved_setting values _ "initrd_path" image refl booted;
            files = require_files_lem host _ v files;
          })
