-- ===== src/Json.antt =====
-- What `json.loads` returns: the values that the validators read.
use openurma_gem5_lab.Prelude.{String, Bool, List, [], ◌∷◌}
use openurma_gem5_lab.Prelude.Int.{ℤ}
use openurma_gem5_lab.Prelude.Dict.{Dict}

mutual
  -- A float keeps its literal: the code tells it from an `int` and uses nothing else of it.
  pub data Json : Type 0 where
    null : Json
    bool : Bool → Json
    num : ℤ → Json
    float : String → Json
    str : String → Json
    arr : Items → Json
    obj : Members → Json

  pub data Items : Type 0 where
    nil : Items
    cons : Json → Items → Items

  pub data Members : Type 0 where
    end : Members
    member : String → Json → Members → Members

-- A list value as a list.
abbrev pub items : Items → List Json
items nil = []
items (cons v vs) = v ∷ items vs

-- A dict value as a dict.
abbrev pub members : Members → Dict String Json
members end = []
members (member k v ms) = (k, v) ∷ members ms
