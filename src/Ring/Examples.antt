-- ===== src/Ring/Examples.antt =====
-- A small ring, and the theorems at it. The texts of its etcd are the JSON values themselves, and it
-- is built of the members in their order.
use trust_and_safety_demo.Base.{
  ℕ, ◌≡◌, refl, arith, String, true, Option, none, some, List, [], ◌∷◌, map, All, IsDistinct, elem,
  take, Result, ok, err, string_eq, nat_eq, pos, assertion_error, value_error, key_error, ◌>>=◌,
}
use trust_and_safety_demo.Base.Dict.{Dict, get, put}
use trust_and_safety_demo.Ring.Topology.{
  utf8, ill_formed, text_name, bytes_name, name_eq, EtcdHashRingMember, Item, name_item, int_item,
  item_eq, json_int, JsonValue, member_object, from_value, to_json, ensure_strings_are_bytes,
}
use trust_and_safety_demo.Ring.Defs.{
  EtcdHashRing, Event, full_sync_one_no_key, Selection, several, by_name, select, add,
}
use trust_and_safety_demo.Ring.RoundTrip.{from_value-to_json}
use trust_and_safety_demo.Ring.Selecting.{select-IsDistinct, select-select}

abbrev member : String → ℕ → EtcdHashRingMember
member s n = record { name = bytes_name (utf8 s); num_replicas = n }

abbrev text_member : String → ℕ → EtcdHashRingMember
text_member s n = record { name = text_name s; num_replicas = n }

abbrev node : String → Item
node s = name_item (bytes_name (utf8 s))

abbrev members : List EtcdHashRingMember
members = member "a" 2 ∷ member "b" 1 ∷ []

abbrev overrides : Dict Item (List Item)
overrides = (int_item (pos 7), node "x" ∷ []) ∷ []

abbrev ring : EtcdHashRing (List EtcdHashRingMember)
ring = record {
  is_watching = true;
  members = by_name members [];
  overrides = overrides;
  default_num_replicas = 512;
  ring = members;
}

abbrev build : ℕ → List EtcdHashRingMember → List EtcdHashRingMember
build n ms = ms

abbrev find_node : List EtcdHashRingMember → Item → Option Item
find_node [] key = none
find_node (m ∷ ms) key = some (name_item m.name)

abbrev find_nodes : List EtcdHashRingMember → Item → ℕ → List Item
find_nodes ms key n = take n (map (λ m. name_item m.name) ms)

abbrev loads : JsonValue → Result JsonValue
loads v = ok v

abbrev dumps : JsonValue → JsonValue
dumps v = v

abbrev set : JsonValue → Result JsonValue
set v = ok v

abbrev first : Result (Event JsonValue)
first = ok full_sync_one_no_key

abbrev selecting :
    ℕ
    → EtcdHashRing (List EtcdHashRingMember)
    → Result (Selection × EtcdHashRing (List EtcdHashRingMember))
selecting n r = select build find_node find_nodes loads dumps set first (json_int (pos 7)) n r

abbrev ring_after : EtcdHashRing (List EtcdHashRingMember)
ring_after = record ring {
  overrides = (int_item (pos 7), node "x" ∷ node "a" ∷ node "b" ∷ []) ∷ [];
}

select_test : selecting 1 ring ≡ ok (several (node "x" ∷ node "a" ∷ []), ring_after)
unfolding select by_name get put
select_test = refl

-- An override without values is written, and cannot be read.
empty_override_test :
    (to_json members ((int_item (pos 7), []) ∷ []) >>= λ v. from_value v 512) ≡ err assertion_error
unfolding from_value to_json
empty_override_test = refl

-- A name that is not UTF-8 cannot be written.
ill_formed_test :
    to_json ((record { name = bytes_name (ill_formed 0); num_replicas = 1 }) ∷ []) []
    ≡ err value_error
unfolding to_json
ill_formed_test = refl

-- A name that is a text comes back as a byte string.
from_value-to_json_example :
    (v : JsonValue) × (to_json (text_member "a" 2 ∷ []) overrides ≡ ok v)
    × (from_value v 512 ≡ ok (record { members = member "a" 2 ∷ []; overrides = overrides }))
from_value-to_json_example =
    from_value-to_json (text_member "a" 2 ∷ []) overrides 512 ((omega arith, refl), tt)
      ((omega arith, refl, (refl, tt)), tt) (refl, tt)

select-IsDistinct_example : IsDistinct (node "x" ∷ node "a" ∷ [])
unfolding get ensure_strings_are_bytes
select-IsDistinct_example =
    select-IsDistinct build find_node find_nodes loads dumps set first (json_int (pos 7)) 0 ring
      ring_after (node "x" ∷ []) (node "x" ∷ node "a" ∷ []) refl refl (refl, tt) select_test

select-select_example :
    (selecting 1 ring_after ≡ ok (several (node "x" ∷ node "a" ∷ []), ring_after))
    × ((os : List Item) × (get (ensure_strings_are_bytes (json_int (pos 7))) ring_after.overrides
          ≡ some os)
        × All
            (λ n. elem n os ≡ true)
            (find_nodes ring.ring (ensure_strings_are_bytes (json_int (pos 7))) 2))
unfolding get ensure_strings_are_bytes
select-select_example =
    select-select build find_node find_nodes loads dumps set first (json_int (pos 7)) 0 ring
      ring_after (node "x" ∷ []) (several (node "x" ∷ node "a" ∷ [])) refl refl select_test

abbrev more : List EtcdHashRingMember
more = text_member "b" 3 ∷ member "c" 1 ∷ []

-- Of the text "b" that was added and the byte string that was there, the later stays.
names_merge :
    (add build find_node find_nodes loads dumps set first (map member_object more) ring).0.members
    ≡ (bytes_name (utf8 "a"), member "a" 2)
      ∷ (bytes_name (utf8 "b"), member "b" 3)
      ∷ (bytes_name (utf8 "c"), member "c" 1)
      ∷ []
unfolding add by_name get put from_value to_json
names_merge = refl

-- Etcd refuses: the members stay changed.
refused_add :
    add build find_node find_nodes loads dumps
      (λ t. err key_error)
      first
      (map member_object (member "c" 1 ∷ []))
      ring
    ≡ (record ring { members = by_name (member "c" 1 ∷ []) ring.members }, err key_error)
unfolding add by_name get put to_json
refused_add = refl
