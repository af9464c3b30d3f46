-- ===== src/Checkpoint/Agreed.antt =====
-- ubsim_lab/cli.py: what the tests of a checkpoint say of its entries, its files and its image.
use openurma_gem5_lab.Prelude.{
  ℕ, ◌≡◌, inl, inr, refl, ap, String, Bool, true, false, List, [], ◌∷◌, ◌==◌, string_eq, eq_iff,
  Option, some, none, contains, all, All, Bool-cases, arith, ◌≢◌, ◌∙◌, ◌<>◌, ◌-◌, ◌&&◌, ◌++◌, take,
  drop, length, map, range_from, Option-cases, if◌then◌else◌, list_eq, nat_eq,
}
use openurma_gem5_lab.Prelude.Dict.{lookup, has_of_lookup}
use openurma_gem5_lab.Prelude.Text.{str, codes}
use openurma_gem5_lab.Checkpoint.{
  starts_with, ends_with, is_latency_key, is_rate_key, get_default, original_defaults, ignored_keys,
  Manifest, Checkpoint, is_compared, is_value, value_of, mismatched, any_mismatch, required_files,
  other_image, is_template,
}

-- `node`, anything and the ending.
pub record IsLinkKey (key ending : String) : Type 0 where
  pub starts : take (length (codes "node")) (codes key) ≡ codes "node"
  pub ends : drop (length (codes key) - length (codes ending)) (codes key) ≡ codes ending

-- What an original checkpoint leaves unsaid.
abbrev pub first_values : Manifest
first_values =
    ("auto_o3_lifecycle", "0")
    ∷ ("fast_boot_noncaching", "0")
    ∷ ("max_jfs_depth", "1024")
    ∷ ("max_jfr_depth", "1024")
    ∷ ("max_jfc_depth", "4096")
    ∷ ("max_jettys", "1152")
    ∷ ("public_jettys", "128")
    ∷ ("template_checkpoint", "0")
    ∷ []

-- What a checkpoint's manifest says for a key: its own value, that of the original version, or the one
-- that it has for all links.
pub data HasValue (manifest : Manifest) (key wanted : String) : Type 0 where
  own : lookup key manifest ≡ some wanted → HasValue manifest key wanted
  original :
      lookup key manifest ≡ none
      → lookup key first_values ≡ some wanted
      → HasValue manifest key wanted
  all_latencies :
      lookup key manifest ≡ none
      → IsLinkKey key "_link_latency_ns"
      → lookup "peer_latency_ns" manifest ≡ some wanted
      → HasValue manifest key wanted
  all_rates :
      lookup key manifest ≡ none
      → IsLinkKey key "_link_rate_gbps"
      → lookup "peer_link_rate_gbps" manifest ≡ some wanted
      → HasValue manifest key wanted

-- A key that need not agree, some of them only for a template.
pub data IsIgnored (template : Bool) (key : String) : Type 0 where
  always :
      contains
          ("restore_checkpoint" ∷ "execution_mode" ∷ "endpoint_eids" ∷ "peer_ring_bytes"
            ∷ "dist_link_speed" ∷ "max_read_outstanding" ∷ "write_payload_read_window"
            ∷ "ub_fabric_layout" ∷ "peer_switch_delay" ∷ "initrd_path" ∷ [])
          key
        ≡ true
      → IsIgnored template key
  number : template ≡ true → key ≡ "node_count" → IsIgnored template key
  kind : template ≡ true → key ≡ "template_checkpoint" → IsIgnored template key
  latency : template ≡ true → IsLinkKey key "_link_latency_ns" → IsIgnored template key
  rate : template ≡ true → IsLinkKey key "_link_rate_gbps" → IsIgnored template key

-- An entry of the wanted manifest that the checkpoint has too; state format 3 serves for 4.
pub data Agrees (template : Bool) (manifest : Manifest) (entry : String × String) : Type 0 where
  ignored : IsIgnored template entry.0 → Agrees template manifest entry
  same_value : HasValue manifest entry.0 entry.1 → Agrees template manifest entry
  older :
      entry.0 ≡ "udma_state_format"
      → entry.1 ≡ "4"
      → HasValue manifest entry.0 "3"
      → Agrees template manifest entry

-- The state files of a template, or of each node.
pub data HasFiles (count : ℕ) (c : Checkpoint) : Bool → Type 0 where
  of_template :
      lookup "checkpoint_kind" c.metadata ≡ some "node-template-v1"
      → contains c.files "template-cpt/m5.cpt" ≡ true
      → HasFiles count c true
  of_nodes :
      lookup "checkpoint_kind" c.metadata ≢ some "node-template-v1"
      → All (λ node. contains c.files ("node" <> str node <> "-cpt") ≡ true) (range_from 0 count)
      → All
          (λ node. contains c.files ("udma-node" <> str node <> ".state") ≡ true)
          (range_from 0 count)
      → HasFiles count c false

-- The image of the checkpoint is the configured one; other profiles than `modern` also allow that its
-- hash was not recorded or that there is no image.
pub data HasImage (desired metadata : Manifest) : Option String → Type 0 where
  recorded :
      {hash : String}
      → lookup "initramfs_sha256" metadata ≡ some hash
      → HasImage desired metadata (some hash)
  unrecorded :
      {hash : String}
      → lookup "initramfs_sha256" metadata ≡ none
      → lookup "profile" desired ≢ some "modern"
      → HasImage desired metadata (some hash)
  no_image : lookup "profile" desired ≢ some "modern" → HasImage desired metadata none

is_value-true :
    (value : Option String) (wanted : String) → is_value value wanted ≡ true → value ≡ some wanted
unfolding is_value
is_value-true none wanted h = cc
is_value-true (some value) wanted h = ap some ((eq_iff value wanted).0 h)

is_value-false :
    (value : Option String) (wanted : String) → is_value value wanted ≡ false → value ≢ some wanted
unfolding is_value
is_value-false none wanted h e = cc
is_value-false (some value) wanted h e =
    let same : value ≡ wanted = cc in ground (arith, (eq_iff value wanted).1 same)

link_key :
    (key ending : String)
    → (starts_with key "node" && ends_with key ending) ≡ true
    → IsLinkKey key ending
unfolding starts_with ends_with
link_key key ending h = record {
  starts = (list_eq.test_iff _ _).0 (ground arith);
  ends = (list_eq.test_iff _ _).0 (ground arith);
}

-- The value for a key without an own or an original one.
value_of_link :
    (manifest : Manifest) (key wanted : String)
    → lookup key manifest ≡ none
    → (if is_latency_key key
        then lookup "peer_latency_ns" manifest
        else if is_rate_key key
        then lookup "peer_link_rate_gbps" manifest
        else none)
      ≡ some wanted
    → HasValue manifest key wanted
unfolding is_latency_key is_rate_key
value_of_link manifest key wanted absent h = elim (Bool-cases (is_latency_key key)) [
  | inl slow ↦ all_latencies absent (link_key key _ slow) (ground arith)
  | inr other ↦ elim (Bool-cases (is_rate_key key)) [
    | inl fast ↦ all_rates absent (link_key key _ fast) (ground arith)
    | inr neither ↦ absurd (ground arith)
  ]
]

value_of-HasValue :
    (manifest : Manifest) (key wanted : String)
    → value_of manifest key ≡ some wanted
    → HasValue manifest key wanted
unfolding value_of get_default
value_of-HasValue manifest key wanted h = elim (Option-cases (lookup key manifest)) [
  | inr (value, there) ↦ own (there ∙ (cc (rw (value_of, there) at h)))
  | inl absent ↦ elim (Option-cases (lookup key original_defaults)) [
    | inr (value, there) ↦ original absent (there ∙ (cc (rw (value_of, absent, there) at h)))
    | inl no_default ↦
        value_of_link manifest key wanted absent (rw (value_of, absent, no_default) at h)
  ]
]

mismatched-false :
    (template : Bool) (manifest : Manifest) (key wanted : String)
    → mismatched manifest key wanted ≡ false
    → Agrees template manifest (key, wanted)
unfolding mismatched
mismatched-false template manifest key wanted h =
    let value = value_of manifest key in
    elim (Bool-cases (is_value value wanted)) [
      | inl same ↦
          same_value (value_of-HasValue manifest key wanted (is_value-true value wanted same))
      | inr other ↦
          let old : is_value value "3" ≡ true = ground arith in
          let format : (key == "udma_state_format") ≡ true = ground arith in
          let four : (wanted == "4") ≡ true = ground arith in
          older ((eq_iff key "udma_state_format").0 format) ((eq_iff wanted "4").0 four)
            (value_of-HasValue manifest key "3" (is_value-true value "3" old))
    ]

is_compared-IsIgnored :
    (template : Bool) (key : String) → is_compared template key ≡ false → IsIgnored template key
unfolding is_compared is_latency_key is_rate_key
is_compared-IsIgnored template key h = elim (Bool-cases (contains ignored_keys key)) [
  | inl listed ↦ always listed
  | inr compared ↦
      let templated : template ≡ true = ground arith in
      elim (Bool-cases (key == "node_count")) [
        | inl e ↦ number templated ((eq_iff key _).0 e)
        | inr n ↦ elim (Bool-cases (key == "template_checkpoint")) [
          | inl e ↦ kind templated ((eq_iff key _).0 e)
          | inr k ↦ elim (Bool-cases (is_latency_key key)) [
            | inl slow ↦ latency templated (link_key key _ slow)
            | inr l ↦ rate templated (link_key key _ (ground arith))
          ]
        ]
      ]
]

pub agree_of :
    (template : Bool) (manifest desired : Manifest)
    → any_mismatch template manifest desired ≡ false
    → All (Agrees template manifest) desired
unfolding any_mismatch
agree_of template manifest [] h = tt
agree_of template manifest ((key, wanted) ∷ rest) h = (
  elim (Bool-cases (is_compared template key)) [
    | inr skipped ↦ ignored (is_compared-IsIgnored template key skipped)
    | inl compared ↦ mismatched-false template manifest key wanted (ground arith)
  ],
  agree_of template manifest rest (ground arith),
)

all_images :
    (files : List String) (f : ℕ → String) (nodes : List ℕ)
    → all (contains files) (map f nodes) ≡ true
    → All (λ node. contains files (f node) ≡ true) nodes
all_images files f [] h = tt
all_images files f (node ∷ rest) h = (ground arith, all_images files f rest (ground arith))

all_front :
    (files : List String) (xs ys : List String)
    → all (contains files) (xs ++ ys) ≡ true
    → (all (contains files) xs ≡ true) × (all (contains files) ys ≡ true)
all_front files [] ys h = (refl, h)
all_front files (x ∷ xs) ys h =
    let more = all_front files xs ys (ground arith) in (ground arith, more.1)

pub required_files-HasFiles :
    (count : ℕ) (c : Checkpoint) (template : Bool)
    → is_template c ≡ template
    → all (contains c.files) (required_files template count) ≡ true
    → HasFiles count c template
unfolding required_files is_template
required_files-HasFiles count c true t h = of_template (is_value-true _ _ t) (ground arith)
required_files-HasFiles count c false t h =
    let (states, devices) =
      all_front c.files (map (λ node. "node" <> str node <> "-cpt") (range_from 0 count)) _ h in
    of_nodes (is_value-false _ _ t) (all_images c.files _ _ states) (all_images c.files _ _ devices)

pub other_image-HasImage :
    (image_hash : Option String) (desired metadata : Manifest)
    → (image_hash ≡ none → is_value (lookup "profile" desired) "modern" ≡ false)
    → other_image image_hash desired metadata ≡ false
    → HasImage desired metadata image_hash
unfolding other_image
other_image-HasImage none desired metadata fit h = no_image (is_value-false _ _ (fit refl))
other_image-HasImage (some hash) desired metadata fit h =
    elim (Bool-cases (is_value (lookup "initramfs_sha256" metadata) hash)) [
      | inl same ↦ recorded (is_value-true _ _ same)
      | inr other ↦ elim (Option-cases (lookup "initramfs_sha256" metadata)) [
        | inl absent ↦ unrecorded absent (is_value-false _ _ (ground arith))
        | inr (value, there) ↦
            let kept = has_of_lookup "initramfs_sha256" metadata {v = value} there in
            absurd (ground arith)
      ]
    ]
