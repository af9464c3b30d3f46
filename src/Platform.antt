-- ===== src/Platform.antt =====
-- What the launchers ask of the machine that they run on, and the files that they start.
use openurma_gem5_lab.Prelude.{
  String, ◌<>◌, Bool, not, ◌&&◌, ◌==◌, string_eq, if◌then◌else◌, Option, some, none,
}

-- `ROOT` with a slash, `sys.platform == "darwin"`, `os.uname().machine` and `os.environ.get`.
pub record Platform : Type 0 where
  pub root : String
  pub darwin : Bool
  pub machine : String
  pub environ : String → Option String

module _ (platform : Platform) where
  -- `os.environ.get(name, default)`
  unfoldable pub environ_or : String → String → String
  environ_or name default = elim (platform.environ name) [ none ↦ default | some value ↦ value ]

  unfoldable pub host_name : String
  host_name = if platform.darwin then "macos" else "linux"

  unfoldable pub arch : String
  arch = if platform.machine == "arm64" && not platform.darwin then "aarch64" else platform.machine

  unfoldable pub device_binary : String
  unfolding arch
  device_binary =
      platform.root
      <> "artifacts/udma-device-sim-build-"
      <> (if platform.darwin then "darwin" else "linux")
      <> "-"
      <> arch
      <> "/udma-device-sim"

  unfoldable pub adapter_binary : String
  unfolding host_name
  adapter_binary =
      platform.root <> "sources/ns-3-ub/build-" <> host_name <> "/scratch/ns3.44-ub-net-adapter"
