-- ===== src/Topology/Links/Total.antt =====
-- ubsim_lab/topology.py: reading the links raises no `KeyError`.
use openurma_gem5_lab.Prelude.{
  string_eq, ℕ, String, ◌≡◌, true, List, [], ◌∷◌, some, arith, Option, none, suc, refl,
}
use openurma_gem5_lab.Prelude.Dict.{Dict, has, lookup_of_has}
use openurma_gem5_lab.Json.{Json, null, bool, num, float, arr, obj, str as text}
use openurma_gem5_lab.Topology.Fields.NoKeyError.{
  NoKeyError, NoKeyError-ok, NoKeyError-topology_error, NoKeyError-type_error, total_rules,
  NoKeyError-at, NoKeyError-bind, NoKeyError-raise_if,
}
use openurma_gem5_lab.Prelude.Result.{
  Ensures, Ensures-ok, Ensures-err, Ensures-bind, Ensures-raise_if, ok,
}
use openurma_gem5_lab.Topology.Fields.Laws.{fields-has}
use openurma_gem5_lab.Topology.Links.{
  switch_end, read_ends, LinkState, read_link, read_links, switch_link_fields, hash,
  read_direct_link, direct_links, known_device, device_of,
}
use openurma_gem5_lab.Topology.Machine.{Switch}
use openurma_gem5_lab.Topology.Fields.{fields}
use openurma_gem5_lab.Topology.Devices.{Device}

NoKeyError-hash : (raw : Json) → NoKeyError (hash raw)
unfolding hash
NoKeyError-hash (arr vs) = NoKeyError-type_error
NoKeyError-hash (obj ms) = NoKeyError-type_error
NoKeyError-hash raw = NoKeyError-ok _

NoKeyError-read_direct_link :
    (raw : Json) (devices : List String) → NoKeyError (read_direct_link raw devices)
unfolding read_direct_link
NoKeyError-read_direct_link raw devices = search (total_rules, NoKeyError-hash) depth 60 fits 20000

pub NoKeyError-direct_links :
    (nodes port_count : ℕ) (raws : List Json) (devices : List String)
    → NoKeyError (direct_links nodes port_count raws devices)
unfolding direct_links
NoKeyError-direct_links nodes port_count [] devices = NoKeyError-topology_error _
NoKeyError-direct_links nodes port_count (raw ∷ []) devices =
    search (total_rules, NoKeyError-read_direct_link)
NoKeyError-direct_links nodes port_count (raw ∷ raw' ∷ rest) devices = NoKeyError-topology_error _

NoKeyError-known_device :
    (raw : Json) (by_device : Dict String Device) → NoKeyError (known_device raw by_device)
unfolding known_device
NoKeyError-known_device (arr vs) by_device = NoKeyError-type_error
NoKeyError-known_device (obj ms) by_device = NoKeyError-type_error
NoKeyError-known_device _ by_device = NoKeyError-ok _

-- A known device is in the dict.
pub known_device-has :
    (raw : Json) (by_device : Dict String Device) (id : String)
    → known_device raw by_device ≡ ok (some id)
    → has id by_device ≡ true
unfolding known_device
known_device-has (text s) by_device id h = ground arith
known_device-has null by_device id h = cc
known_device-has (bool b) by_device id h = cc
known_device-has (num b) by_device id h = cc
known_device-has (float b) by_device id h = cc
known_device-has (arr b) by_device id h = cc
known_device-has (obj b) by_device id h = cc

pub NoKeyError-device_of :
    (id : String) (by_device : Dict String Device)
    → has id by_device ≡ true
    → NoKeyError (device_of id by_device)
unfolding device_of
NoKeyError-device_of id by_device h =
    let (d, found) = lookup_of_has id by_device h in record { never = λ j e. ground arith }

-- The device that the checks of a link's ends let through is in the dict.
switch_end-has :
    (link : Dict String Json) (by_device : Dict String Device) (switch : Switch) (place : String)
    (raw : Json) (found : Option String)
    → known_device raw by_device ≡ ok found
    → Ensures (λ id. has id by_device ≡ true) (switch_end link switch place found)
unfolding switch_end
switch_end-has link by_device switch place raw none h = Ensures-err _
switch_end-has link by_device switch place raw (some id) h =
    Ensures-bind _ _ λ raw_switch _.
      Ensures-raise_if _ _ _ λ _. Ensures-ok id (known_device-has raw by_device id h)

read_ends-has :
    (link : Dict String Json) (by_device : Dict String Device) (switch : Switch) (place : String)
    → Ensures (λ id. has id by_device ≡ true) (read_ends link by_device switch place)
unfolding read_ends
read_ends-has link by_device switch place =
    Ensures-bind _ _
      λ raw _. Ensures-bind _ _ λ found h. switch_end-has link by_device switch place raw found h

NoKeyError-switch_end :
    (link : Dict String Json) (switch : Switch) (place : String) (found : Option String)
    → has "switch" link ≡ true
    → NoKeyError (switch_end link switch place found)
unfolding switch_end
NoKeyError-switch_end link switch place none w = NoKeyError-topology_error _
NoKeyError-switch_end link switch place (some id) w =
    NoKeyError-bind _ _ (NoKeyError-at link "switch" w)
      λ raw _. NoKeyError-bind _ _ (NoKeyError-raise_if _ _) λ _ _. NoKeyError-ok id

NoKeyError-read_ends :
    (link : Dict String Json) (by_device : Dict String Device) (switch : Switch) (place : String)
    → has "device" link ≡ true
    → has "switch" link ≡ true
    → NoKeyError (read_ends link by_device switch place)
unfolding read_ends
NoKeyError-read_ends link by_device switch place d w =
    NoKeyError-bind _ _ (NoKeyError-at link "device" d) λ raw _.
      NoKeyError-bind _ _ (NoKeyError-known_device raw by_device)
        λ found _. NoKeyError-switch_end link switch place found w

module _ (node_names : List String) (port_count : ℕ) (by_device : Dict String Device)
    (switch : Switch) where
  read_ends_of_fields :
      (raw : Json) (place : String) (link : Dict String Json)
      → fields raw switch_link_fields switch_link_fields place ≡ ok link
      → NoKeyError (read_ends link by_device switch place)
  read_ends_of_fields raw place link e =
      NoKeyError-read_ends link by_device switch place
        (fields-has raw switch_link_fields switch_link_fields place "device" e refl)
        (fields-has raw switch_link_fields switch_link_fields place "switch" e refl)

  device_of_ends :
      (link : Dict String Json) (place id : String)
      → read_ends link by_device switch place ≡ ok id
      → NoKeyError (device_of id by_device)
  device_of_ends link place id e =
      NoKeyError-device_of id by_device ((read_ends-has link by_device switch place).holds id e)

  NoKeyError-read_link :
      (index : ℕ) (raw : Json) (s : LinkState)
      → NoKeyError (read_link node_names port_count by_device switch index raw s)
  unfolding read_link
  NoKeyError-read_link index raw s =
      search (total_rules, read_ends_of_fields, device_of_ends) depth 60 fits 40000

  pub NoKeyError-read_links :
      (index : ℕ) (raws : List Json) (s : LinkState)
      → NoKeyError (read_links node_names port_count by_device switch index raws s)
  unfolding read_links
  NoKeyError-read_links index [] s = NoKeyError-ok s
  NoKeyError-read_links index (raw ∷ rest) s =
      NoKeyError-bind _ _ (NoKeyError-read_link index raw s)
        λ s' _. NoKeyError-read_links (suc index) rest s'
