-- ===== src/Launcher/Options/Keys.antt =====
-- ubsim_lab/config_launcher.py: no two options of gem5 take the same setting.
use openurma_gem5_lab.Prelude.{
  String, ◌≡◌, refl, map, contains, true, false, has_repeat, string_eq, same_image,
}
use openurma_gem5_lab.Prelude.Dict.{lookup}
use openurma_gem5_lab.Prelude.Text.{replace_dash, drop_text}
use openurma_gem5_lab.Checkpoint.{starts_with, ends_with}
use openurma_gem5_lab.Launcher.Options.{gem5_options, gem5_key, derived_key}

keys_distinct : has_repeat (map gem5_key gem5_options) ≡ false
unfolding has_repeat gem5_key derived_key replace_dash drop_text starts_with ends_with lookup
keys_distinct = refl

-- Two options of gem5 that take the same setting of the manifest are the same option.
pub gem5_key-injective :
    (a b : String)
    → contains gem5_options a ≡ true
    → contains gem5_options b ≡ true
    → gem5_key a ≡ gem5_key b
    → a ≡ b
gem5_key-injective a b ha hb same = same_image gem5_key gem5_options a b keys_distinct ha hb same
