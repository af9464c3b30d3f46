-- ===== src/Launcher/Prepare.antt =====
-- ubsim_lab/config_launcher.py: what `start_gem5` does before its first process.
pub mod Ready
use openurma_gem5_lab.Launcher.Process.{LaunchError, bad_config, template_profile, already_running}
use openurma_gem5_lab.Prelude.{
  String, ◌<>◌, Bool, true, false, not, [], ◌∷◌, Option, some, none, length, ◌==◌, string_eq,
  if◌then◌else◌,
}
use openurma_gem5_lab.Prelude.Dict.{insert}
use openurma_gem5_lab.Prelude.Result.{Result, ok, err, ◌>>=◌, ◌>>◌, raise_if}
use openurma_gem5_lab.Checkpoint.{select_compatible_checkpoint}
use openurma_gem5_lab.Config.{Values, Spec, resolve_gem5}
use openurma_gem5_lab.Topology.Plan.{Plan}
use openurma_gem5_lab.Platform.{Platform, environ_or}
use openurma_gem5_lab.Launcher.Settings.{Host, setting, check_memory, require_files, check_run_root}
use openurma_gem5_lab.Launcher.Command.{gem5_command, gem5_binary, gem5_config, gem5_kernel}
use openurma_gem5_lab.Launcher.Devices.{device_of_gem5, switch_of_gem5}

-- What the function has worked out before its `try`.
pub record Prepared : Type 0 where
  pub manifest : Values
  pub checkpoint : Option String
  pub template : Bool
  pub run_root : String
  pub sync : String

unfoldable pub settings_of : Host → Spec → Plan → Result LaunchError Values
settings_of host spec plan = elim (resolve_gem5 host.platform.root host.defaults spec plan) [
  | err e ↦ err (bad_config e)
  | ok values ↦ ok values
]

-- The selected checkpoint, by its directory's name.
unfoldable pub select_for : Host → Plan → Values → Result LaunchError (Option String)
unfolding setting
select_for host plan values =
    let auto =
      (setting values "initrd_path" >>= λ image.
      (ok (
        select_compatible_checkpoint values (length plan.node_ids) (host.image_hash image)
          host.checkpoints))) in
    if plan.checkpoint == "auto" then auto else (ok none)

unfoldable pub directory_of : Platform → Option String → Option String
directory_of platform none = none
directory_of platform (some name) = some (platform.root <> "checkpoints/" <> name)

unfoldable pub is_template_of : Host → Option String → Bool
is_template_of host none = false
is_template_of host (some directory) = host.is_template directory

-- A template needs the modern profile; the profile is read only for one.
unfoldable pub check_template : Bool → Values → Result LaunchError (Unit {0})
unfolding setting
check_template false manifest = ok tt
check_template true manifest = do
  profile ← setting manifest "profile"
  raise_if (not (profile == "modern")) template_profile

unfoldable pub or_none : Option String → String
or_none none = "none"
or_none (some name) = name

unfoldable pub sync_of : String → String
sync_of virtual_time = if virtual_time == "enabled" then "required" else "off"

-- Everything before the first process.
unfoldable pub prepare_gem5 : Host → Spec → Plan → Result LaunchError Prepared
unfolding settings_of select_for directory_of is_template_of check_template or_none sync_of
    gem5_command
prepare_gem5 host spec plan = do
  values ← settings_of host spec plan
  selected ← select_for host plan values
  let checkpoint : Option String = directory_of host.platform selected
  let template : Bool = is_template_of host checkpoint
  check_template template values
  let manifest : Values = insert "restore_checkpoint" (or_none selected) values
  let run_root : String =
      environ_or host.platform "UBSIM_DUAL_OUT" (host.platform.root <> "run-dual")
  raise_if (host.is_running run_root) already_running
  memory ← setting manifest "memory_size"
  check_memory host "start" (length plan.node_ids) memory
  sample ← gem5_command host manifest 0 run_root checkpoint template
  image ← setting manifest "initrd_path"
  require_files host (
      gem5_binary host.platform
      ∷ gem5_config host.platform
      ∷ image
      ∷ device_of_gem5 host.platform
      ∷ switch_of_gem5 host.platform
      ∷ gem5_kernel host.platform
      ∷ [])
  check_run_root run_root
  virtual_time ← setting manifest "virtual_time_synchronization"
  (ok (record {
    manifest = manifest;
    checkpoint = checkpoint;
    template = template;
    run_root = run_root;
    sync = sync_of virtual_time;
  }))
