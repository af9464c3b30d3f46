-- ===== src/Launcher/Command.antt =====
-- ubsim_lab/config_launcher.py: `gem5_command`. The file of the node's number is not modelled.
pub mod Taken
use openurma_gem5_lab.Prelude.{
  ℕ, zero, suc, ◌+◌, String, ◌<>◌, Bool, true, false, List, [], ◌∷◌, ◌++◌, Option, some, none, ◌==◌,
  string_eq, if◌then◌else◌,
}
use openurma_gem5_lab.Prelude.Int.{◌-ℤ◌}
use openurma_gem5_lab.Prelude.Text.{str, str_ℤ, hex2}
use openurma_gem5_lab.Prelude.Result.{Result, ok, ◌>>=◌}
use openurma_gem5_lab.Config.{Values}
use openurma_gem5_lab.QemuPorts.{nth_port}
use openurma_gem5_lab.Platform.{Platform, environ_or}
use openurma_gem5_lab.Launcher.Process.{LaunchError}
use openurma_gem5_lab.Launcher.Settings.{Host, setting}
use openurma_gem5_lab.Launcher.Options.{gem5_options, gem5_key}

-- The loop over `GEM5_OPTIONS`.
unfoldable pub option_args : Values → List String → Result LaunchError (List String)
unfolding setting
option_args manifest [] = ok []
option_args manifest (option ∷ rest) = do
  value ← setting manifest (gem5_key option)
  others ← option_args manifest rest
  ok (("--" <> option <> "=" <> value) ∷ others)

module _ (platform : Platform) where
  unfoldable pub gem5_binary : String
  gem5_binary = environ_or platform "UBSIM_GEM5" (
      platform.root
      <> (if platform.darwin then "gem5/build/ARM_MAC/gem5.opt" else "gem5/build/ARM/gem5.opt"))

  unfoldable pub gem5_config : String
  gem5_config = environ_or platform "UBSIM_CONFIG" (platform.root <> "configs/arm64_fs.py")

  unfoldable pub gem5_kernel : String
  gem5_kernel =
      environ_or platform "UBSIM_KERNEL" (platform.root <> "artifacts/kernel-64k-20261015/vmlinux")

  -- `tap`
  unfoldable pub tap_socket : ℕ → String
  tap_socket zero = environ_or platform "UBSIM_DUAL_TAP0" "/tmp/ubsim-dual.eth0.sock"
  tap_socket (suc zero) = environ_or platform "UBSIM_DUAL_TAP1" "/tmp/ubsim-dual.eth1.sock"
  tap_socket (suc (suc node)) = "/tmp/ubsim-dual.eth" <> str (suc (suc node)) <> ".sock"

  unfoldable pub guest_script : String → Bool → String
  guest_script out true = out <> "/identity.txt"
  guest_script out false = environ_or platform "UBSIM_GUEST_READFILE" ""

-- `mac`, with the given fifth byte
unfoldable pub mac_of : String → ℕ → String
unfolding hex2
mac_of fifth node = "02:00:00:00:" <> fifth <> ":" <> hex2 (node + 1)

unfoldable pub flag_if : String → String → List String
flag_if flag value = if value == "1" then flag ∷ [] else []

-- `--restore-from`, of a checkpoint's directory
unfoldable pub restore_args : Option String → ℕ → Bool → List String
restore_args none node template = []
restore_args (some checkpoint) node template =
    ("--restore-from="
      <> checkpoint
      <> "/"
      <> (if template then "template-cpt" else "node" <> str node <> "-cpt"))
    ∷ []

unfoldable pub extra_cmdline : ℕ → Bool → String → String
extra_cmdline node template provider =
    "--extra-cmdline=ubsim_node="
    <> (if template then "template" else str node)
    <> " "
    <> (if template then "ubsim_template=1 " else "")
    <> "ubsim_provider="
    <> provider

unfoldable pub gem5_command :
    Host → Values → ℕ → String → Option String → Bool → Result LaunchError (List String)
unfolding setting option_args gem5_binary gem5_config gem5_kernel tap_socket guest_script mac_of
    flag_if restore_args extra_cmdline nth_port
gem5_command host manifest node run_root checkpoint template = do
  initrd ← setting manifest "initrd_path"
  options ← option_args manifest gem5_options
  lifecycle ← setting manifest "auto_o3_lifecycle"
  noncaching ← setting manifest "fast_boot_noncaching"
  speed ← setting manifest "oob_link_speed"
  latency ← setting manifest "peer_latency_ns"
  provider ← setting manifest "provider"
  let platform : Platform = host.platform
  let out : String = run_root <> "/node" <> str node
  ok (
      gem5_binary platform
        ∷ "--listener-mode=on"
        ∷ ("--outdir=" <> out)
        ∷ gem5_config platform
        ∷ ("--kernel=" <> gem5_kernel platform)
        ∷ ("--initrd=" <> initrd)
        ∷ "--root-device=/dev/ram"
        ∷ ("--script=" <> guest_script platform out template)
        ∷ options
      ++ "--dist-size=0"
        ∷ (flag_if "--auto-o3-lifecycle" lifecycle
            ++ flag_if "--fast-boot-noncaching" noncaching
            ++ restore_args checkpoint node template
            ++ ("--eth-tap-socket=" <> tap_socket platform node)
              ∷ ("--eth-link-speed=" <> speed)
              ∷ ("--eth-link-delay=" <> latency <> "ns")
              ∷ ("--terminal-port="
                  <> str_ℤ (nth_port host.uarts.0 (host.uarts.1 -ℤ host.uarts.0) node))
              ∷ ("--eth-mac=" <> mac_of "00" node)
              ∷ extra_cmdline node template provider
              ∷ []))
