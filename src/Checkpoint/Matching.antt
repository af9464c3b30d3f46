-- ===== src/Checkpoint/Matching.antt =====
-- ubsim_lab/cli.py: what the chosen checkpoint has in common with the wanted machine.
use openurma_gem5_lab.Prelude.{
  ℕ, suc, ◌≡◌, inl, inr, refl, ap, String, Bool, true, false, List, [], ◌∷◌, string_eq, Option,
  some, none, All, get_elem?, Bool-cases, arith, sym, ◌∙◌, list_eq, nat_eq,
}
use openurma_gem5_lab.Prelude.Dict.{lookup}
use openurma_gem5_lab.Checkpoint.{
  pick, select_compatible_checkpoint, Manifest, Checkpoint, is_value, is_template, is_compatible,
  stamp_of, is_greater, newest, compatible,
}
use openurma_gem5_lab.Checkpoint.Agreed.{
  Agrees, HasFiles, HasImage, agree_of, required_files-HasFiles, other_image-HasImage,
}

-- A checkpoint of that name that agrees with the wanted machine in every entry compared, has its
-- state files, and was taken with the image that is configured.
pub record IsRestorable (desired : Manifest) (count : ℕ) (image_hash : Option String)
    (name : String) (c : Checkpoint) : Type 0 where
  pub named : c.name ≡ name
  pub template : Bool
  pub complete : HasFiles count c template
  pub agree : All (Agrees template c.manifest) desired
  pub image : HasImage desired c.metadata image_hash

-- The directory holds a checkpoint with that stamp which passes all tests.
record IsOrigin (desired : Manifest) (count : ℕ) (image_hash : Option String)
    (checkpoints : List Checkpoint) (stamp : String × String) : Type 0 where
  place : ℕ
  checkpoint : Checkpoint
  found : get_elem? checkpoints place ≡ some checkpoint
  passed : is_compatible desired count image_hash checkpoint ≡ true
  stamped : stamp_of checkpoint ≡ stamp

module _ (desired : Manifest) (count : ℕ) (image_hash : Option String) where
  behind :
      (c : Checkpoint) (rest : List Checkpoint) (stamps : List (String × String))
      → All (IsOrigin desired count image_hash rest) stamps
      → All (IsOrigin desired count image_hash (c ∷ rest)) stamps
  behind c rest [] h = tt
  behind c rest (stamp ∷ stamps) (first, others) = (
    record {
      place = suc first.place;
      checkpoint = first.checkpoint;
      found = first.found;
      passed = first.passed;
      stamped = first.stamped;
    },
    behind c rest stamps others,
  )

  compatible-IsOrigin :
      (checkpoints : List Checkpoint)
      → All
          (IsOrigin desired count image_hash checkpoints)
          (compatible desired count image_hash checkpoints)
  unfolding compatible
  compatible-IsOrigin [] = tt
  compatible-IsOrigin (c ∷ rest) =
      let more =
        behind c rest (compatible desired count image_hash rest) (compatible-IsOrigin rest) in
      elim (Bool-cases (is_compatible desired count image_hash c)) [
        | inr unfit ↦ rw unfit more
        | inl fit ↦
            rw fit (
              record { place = 0; checkpoint = c; found = refl; passed = fit; stamped = refl },
              more,
            )
      ]

newest-All :
    (P : String × String → Type 0) (best : String × String) (stamps : List (String × String))
    → P best
    → All P stamps
    → P (newest best stamps)
unfolding newest
newest-All P best [] p h = p
newest-All P best (stamp ∷ rest) p (q, h) = elim (Bool-cases (is_greater best stamp)) [
  | inl greater ↦ rw greater (newest-All P stamp rest q h)
  | inr fine ↦ rw fine (newest-All P best rest p h)
]

stamp_name : (c : Checkpoint) → (stamp_of c).1 ≡ c.name
unfolding stamp_of
stamp_name c = ground arith

pick-IsOrigin :
    (P : String × String → Type 0) (stamps : List (String × String)) (name : String)
    → All P stamps
    → pick stamps ≡ some name
    → (stamp : String × String) × P stamp × (stamp.1 ≡ name)
unfolding pick
pick-IsOrigin P [] name h e = absurd (cc)
pick-IsOrigin P (stamp ∷ rest) name (p, h) e =
    let same : (newest stamp rest).1 ≡ name = cc in
    (newest stamp rest, newest-All P stamp rest p h, same)

passes :
    (desired : Manifest) (count : ℕ) (image_hash : Option String) (name : String) (c : Checkpoint)
    → (image_hash ≡ none → is_value (lookup "profile" desired) "modern" ≡ false)
    → is_compatible desired count image_hash c ≡ true
    → c.name ≡ name
    → IsRestorable desired count image_hash name c
unfolding is_compatible
passes desired count image_hash name c fit h named = record {
  named = named;
  template = is_template c;
  agree = agree_of (is_template c) c.manifest desired (ground arith);
  complete = required_files-HasFiles count c (is_template c) refl (ground arith);
  image = other_image-HasImage image_hash desired c.metadata fit (ground arith);
}

picked :
    (desired : Manifest) (count : ℕ) (image_hash : Option String) (checkpoints : List Checkpoint)
    (name : String)
    → select_compatible_checkpoint desired count image_hash checkpoints ≡ some name
    → pick (compatible desired count image_hash checkpoints) ≡ some name
unfolding select_compatible_checkpoint
picked desired count none checkpoints name h = ground arith
picked desired count (some hash) checkpoints name h = h

-- Without an image, nothing is chosen for the profile `modern`.
without_image :
    (desired : Manifest) (count : ℕ) (image_hash : Option String) (checkpoints : List Checkpoint)
    (name : String)
    → select_compatible_checkpoint desired count image_hash checkpoints ≡ some name
    → image_hash ≡ none
    → is_value (lookup "profile" desired) "modern" ≡ false
unfolding select_compatible_checkpoint
without_image desired count none checkpoints name h e = ground arith
without_image desired count (some hash) checkpoints name h e = absurd (cc)

-- If a checkpoint is chosen, the directory holds one of that name that agrees with the wanted
-- machine in every entry that is not to be ignored (its own value counts, else the original default,
-- else its value for all links; state format 3 serves for 4), and has the state files of all nodes or
-- of the template. If an image is configured, its hash is the recorded one, or none is recorded and
-- the profile is not `modern`; if there is no image, the profile is not `modern`.
pub select_compatible_checkpoint-IsRestorable :
    (desired : Manifest) (count : ℕ) (image_hash : Option String) (checkpoints : List Checkpoint)
    (name : String)
    → select_compatible_checkpoint desired count image_hash checkpoints ≡ some name
    → (place : ℕ) × (c : Checkpoint) × (get_elem? checkpoints place ≡ some c)
      × IsRestorable desired count image_hash name c
select_compatible_checkpoint-IsRestorable desired count image_hash checkpoints name h =
    let (stamp, o, same) =
      pick-IsOrigin (IsOrigin desired count image_hash checkpoints)
        (compatible desired count image_hash checkpoints) name
        (compatible-IsOrigin desired count image_hash checkpoints)
        (picked desired count image_hash checkpoints name h) in
    let named : o.checkpoint.name ≡ name =
      sym (stamp_name o.checkpoint) ∙ ap (λ s. s.1) o.stamped ∙ same in
    (
      o.place,
      o.checkpoint,
      o.found,
      passes desired count image_hash name o.checkpoint
          (without_image desired count image_hash checkpoints name h) o.passed named,
    )
