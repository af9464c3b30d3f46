-- ===== src/Checkpoint.antt =====
-- ubsim_lab/cli.py: the choice of a checkpoint, `_select_compatible_checkpoint`.
pub mod Agreed
pub mod Matching
use openurma_gem5_lab.Prelude.{
  ℕ, zero, suc, ◌+◌, ◌-◌, ◌*◌, String, ◌<>◌, Bool, true, false, not, ◌&&◌, ◌||◌, List, [], ◌∷◌,
  ◌++◌, ◌==◌, nat_eq, string_eq, list_eq, ltb, leb, if◌then◌else◌, Option, some, none, contains,
  any, all, length, take, drop, map, range_from,
}
use openurma_gem5_lab.Prelude.Dict.{Dict, lookup, has, keys}
use openurma_gem5_lab.Prelude.Text.{str, codes}
use Prim.Native.String.{compare}
use Prim.Native.Nat.{Ordering}

abbrev pub Manifest : Type 0
Manifest = Dict String String

-- A directory of checkpoints: its name, its two parsed manifests (the metadata are empty without
-- their file) and the files that exist under it.
pub record Checkpoint : Type 0 where
  pub name : String
  pub manifest : Manifest
  pub metadata : Manifest
  pub files : List String

-- `CHECKPOINT_IGNORED_MANIFEST_KEYS`
abbrev pub ignored_keys : List String
ignored_keys =
    "restore_checkpoint" ∷ "execution_mode" ∷ "endpoint_eids" ∷ "peer_ring_bytes"
    ∷ "dist_link_speed" ∷ "max_read_outstanding" ∷ "write_payload_read_window" ∷ "ub_fabric_layout"
    ∷ "peer_switch_delay" ∷ "initrd_path" ∷ []

-- `defaults`
abbrev pub original_defaults : Manifest
original_defaults =
    ("auto_o3_lifecycle", "0")
    ∷ ("fast_boot_noncaching", "0")
    ∷ ("max_jfs_depth", "1024")
    ∷ ("max_jfr_depth", "1024")
    ∷ ("max_jfc_depth", "4096")
    ∷ ("max_jettys", "1152")
    ∷ ("public_jettys", "128")
    ∷ ("template_checkpoint", "0")
    ∷ []

unfoldable pub starts_with : String → String → Bool
starts_with key part = take (length (codes part)) (codes key) == codes part

unfoldable pub ends_with : String → String → Bool
ends_with key part =
    leb (length (codes part)) (length (codes key))
    && drop (length (codes key) - length (codes part)) (codes key) == codes part

unfoldable pub is_latency_key : String → Bool
unfolding starts_with ends_with
is_latency_key key = starts_with key "node" && ends_with key "_link_latency_ns"

unfoldable pub is_rate_key : String → Bool
unfolding starts_with ends_with
is_rate_key key = starts_with key "node" && ends_with key "_link_rate_gbps"

-- `key in keys`, for a key of `desired`
unfoldable pub is_compared : Bool → String → Bool
is_compared template key =
    not (contains ignored_keys key)
    && not (
        template
        && (key == "node_count"
            || key == "template_checkpoint"
            || is_latency_key key
            || is_rate_key key))

unfoldable pub get_default : String → Option String → Manifest → Option String
get_default key (some value) fallback = some value
get_default key none fallback = lookup key fallback

-- The value that a checkpoint has for a key: its own, an original default, or the old global value
-- for a node's link.
unfoldable pub value_of : Manifest → String → Option String
unfolding get_default
value_of manifest key = elim (get_default key (lookup key manifest) original_defaults) [
  | some value ↦ some value
  | none ↦
      if is_latency_key key
      then lookup "peer_latency_ns" manifest
      else if is_rate_key key
      then lookup "peer_link_rate_gbps" manifest
      else none
]

unfoldable pub is_value : Option String → String → Bool
is_value none wanted = false
is_value (some value) wanted = value == wanted

-- `mismatched(key)`, for a key with the value `wanted` in `desired`
unfoldable pub mismatched : Manifest → String → String → Bool
unfolding is_value
mismatched manifest key wanted =
    let value = value_of manifest key in
    if key == "udma_state_format" && wanted == "4" && is_value value "3"
    then false
    else not (is_value value wanted)

-- `any(mismatched(key) for key in keys)`, over the entries of `desired`
unfoldable pub any_mismatch : Bool → Manifest → Manifest → Bool
any_mismatch template manifest [] = false
any_mismatch template manifest ((key, wanted) ∷ rest) =
    (is_compared template key && mismatched manifest key wanted)
    || any_mismatch template manifest rest

-- `required`
unfoldable pub required_files : Bool → ℕ → List String
required_files true count = "template-cpt/m5.cpt" ∷ []
required_files false count =
    map (λ node. "node" <> str node <> "-cpt") (range_from 0 count)
    ++ map (λ node. "udma-node" <> str node <> ".state") (range_from 0 count)

-- The last test of the loop: another guest image.
unfoldable pub other_image : Option String → Manifest → Manifest → Bool
unfolding is_value
other_image none desired metadata = false
other_image (some hash) desired metadata =
    (has "initramfs_sha256" metadata || is_value (lookup "profile" desired) "modern")
    && not (is_value (lookup "initramfs_sha256" metadata) hash)

unfoldable pub is_template : Checkpoint → Bool
unfolding is_value
is_template c = is_value (lookup "checkpoint_kind" c.metadata) "node-template-v1"

unfoldable pub is_compatible : Manifest → ℕ → Option String → Checkpoint → Bool
is_compatible desired count image_hash c =
    not (any_mismatch (is_template c) c.manifest desired)
    && all (contains c.files) (required_files (is_template c) count)
    && not (other_image image_hash desired c.metadata)

-- `(metadata.get("created_utc", ""), directory.name)`
unfoldable pub stamp_of : Checkpoint → String × String
unfolding get_default
stamp_of c = elim (lookup "created_utc" c.metadata) [
  | none ↦ ("", c.name)
  | some created ↦ (created, c.name)
]

-- Python's order of the two pairs: whether the second is greater.
unfoldable pub is_greater : String × String → String × String → Bool
is_greater (a, b) (c, d) = elim (compare a c) [
  | Ordering.lt ↦ true
  | Ordering.eq ↦ elim (compare b d) [ Ordering.lt ↦ true | _ ↦ false ]
  | Ordering.gt ↦ false
]

-- `max(compatible)`, from the first
unfoldable pub newest : String × String → List (String × String) → String × String
newest best [] = best
newest best (stamp ∷ rest) =
    let later = newest stamp rest in
    let same = newest best rest in if is_greater best stamp then later else same

-- `compatible`
unfoldable pub compatible : Manifest → ℕ → Option String → List Checkpoint → List (String × String)
unfolding stamp_of
compatible desired count image_hash [] = []
compatible desired count image_hash (c ∷ rest) =
    let more = compatible desired count image_hash rest in
    if is_compatible desired count image_hash c then stamp_of c ∷ more else more

unfoldable pub pick : List (String × String) → Option String
pick [] = none
pick (stamp ∷ rest) = some (newest stamp rest).1

-- The function, with `node_count` read as a number, the hash of the image file if it exists, and the
-- checkpoints that the directory holds.
unfoldable pub select_compatible_checkpoint :
    Manifest → ℕ → Option String → List Checkpoint → Option String
unfolding pick is_value
select_compatible_checkpoint desired count none checkpoints =
    if is_value (lookup "profile" desired) "modern"
    then none
    else pick (compatible desired count none checkpoints)
select_compatible_checkpoint desired count (some hash) checkpoints =
    pick (compatible desired count (some hash) checkpoints)
