-- ===== src/Tests/Checkpoint.antt =====
-- ubsim_lab/cli.py at two checkpoints, of which one has too small a memory.
use openurma_gem5_lab.Prelude.{
  ℕ, ◌≡◌, refl, String, true, List, [], ◌∷◌, some, get_elem?, string_eq, nat_eq, list_eq,
}
use openurma_gem5_lab.Prelude.Dict.{lookup, has}
use openurma_gem5_lab.Prelude.Text.{str}
use openurma_gem5_lab.Checkpoint.{
  Manifest, Checkpoint, starts_with, ends_with, is_latency_key, is_rate_key, is_compared,
  get_default, value_of, is_value, mismatched, any_mismatch, required_files, other_image,
  is_template, is_compatible, stamp_of, is_greater, newest, compatible, pick,
  select_compatible_checkpoint,
}
use openurma_gem5_lab.Checkpoint.Matching.{IsRestorable, select_compatible_checkpoint-IsRestorable}

abbrev wanted : Manifest
wanted =
    ("profile", "modern")
    ∷ ("memory_size", "4GB")
    ∷ ("node0_link_latency_ns", "300")
    ∷ ("max_jettys", "1152")
    ∷ ("initrd_path", "out/image")
    ∷ []

abbrev node_files : List String
node_files = "node0-cpt" ∷ "udma-node0.state" ∷ []

abbrev image_of : String → Manifest
image_of created = ("created_utc", created) ∷ ("initramfs_sha256", "ab") ∷ []

abbrev good : Checkpoint
good = record {
  name = "good";
  manifest = ("profile", "modern") ∷ ("memory_size", "4GB") ∷ ("peer_latency_ns", "300") ∷ [];
  metadata = image_of "2026-10-01";
  files = node_files;
}

abbrev small : Checkpoint
small = record {
  name = "small";
  manifest = ("profile", "modern") ∷ ("memory_size", "2GB") ∷ ("peer_latency_ns", "300") ∷ [];
  metadata = image_of "2026-10-02";
  files = node_files;
}

good_fits : is_compatible wanted 1 (some "ab") good ≡ true
unfolding starts_with ends_with is_latency_key is_rate_key is_compared get_default value_of is_value
    mismatched any_mismatch required_files other_image is_template is_compatible lookup has str
good_fits = refl

good_chosen : select_compatible_checkpoint wanted 1 (some "ab") (small ∷ good ∷ []) ≡ some "good"
unfolding starts_with ends_with is_latency_key is_rate_key is_compared get_default value_of is_value
    mismatched any_mismatch required_files other_image is_template is_compatible stamp_of is_greater
    newest compatible pick select_compatible_checkpoint lookup has str
good_chosen = refl

select_compatible_checkpoint-IsRestorable_example :
    (place : ℕ) × (c : Checkpoint) × (get_elem? (small ∷ good ∷ []) place ≡ some c)
    × IsRestorable wanted 1 (some "ab") "good" c
select_compatible_checkpoint-IsRestorable_example =
    select_compatible_checkpoint-IsRestorable wanted 1 (some "ab") (small ∷ good ∷ []) "good"
      good_chosen
