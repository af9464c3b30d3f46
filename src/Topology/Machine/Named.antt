-- ===== src/Topology/Machine/Named.antt =====
-- ubsim_lab/topology.py: the id of an accepted switch.
use openurma_gem5_lab.Prelude.{◌≡◌, true, ap, sym, ◌∙◌, List, [], ◌∷◌, Option, some}
use openurma_gem5_lab.Prelude.Result.{
  Ensures, Ensures-bind, Ensures-ok, Ensures-err, Ensures-raise_if,
}
use openurma_gem5_lab.Json.{Json}
use openurma_gem5_lab.Topology.Fields.{is_name}
use openurma_gem5_lab.Topology.Fields.Laws.{name-is_name}
use openurma_gem5_lab.Topology.Machine.{Switch, read_one_switch, read_switch}

abbrev HasName : Option Switch → Type 0
HasName found = (switch : Switch) → found ≡ some switch → is_name switch.id ≡ true

read_one_switch-HasName : (raw : Json) → Ensures HasName (read_one_switch raw)
unfolding read_one_switch
read_one_switch-HasName raw = Ensures-bind _ _ λ switch _. Ensures-bind _ _ λ raw_id _.
    Ensures-bind _ _ λ id named. Ensures-bind _ _ λ kind _. Ensures-raise_if _ _ _ λ _.
      Ensures-bind _ _ λ raw_delay _. Ensures-bind _ _ λ delay _. Ensures-ok _ λ found e.
        let same : id ≡ found.id = cc in sym (ap is_name same) ∙ name-is_name raw_id _ named

pub read_switch-HasName :
    (raws : List Json)
    → Ensures
        (λ found. (switch : Switch) → found ≡ some switch → is_name switch.id ≡ true)
        (read_switch raws)
unfolding read_switch
read_switch-HasName [] = Ensures-ok _ λ switch e. absurd (cc)
read_switch-HasName (raw ∷ []) = read_one_switch-HasName raw
read_switch-HasName (raw ∷ other ∷ raws) = Ensures-err _
