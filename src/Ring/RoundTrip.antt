-- ===== src/Ring/RoundTrip.antt =====
-- What `to_json` writes, `from_value` reads.
use trust_and_safety_demo.Base.{
  ℕ, zero, suc, ◌≤◌, ◌≡◌, refl, arith, ap, ◌∙◌, String, Bool, true, false, some, List, [], ◌∷◌,
  ◌++◌, map, string_eq, pos, All, length, IsDistinct, elem, ok,
}
use mathlib.Core.List.{append-nil, append_assoc}
use trust_and_safety_demo.Base.Dict.{Dict, keys, put-new, still_new, all_new}
use trust_and_safety_demo.Ring.Topology.{
  utf8, ill_formed, Name, text_name, bytes_name, EtcdHashRingMember, Item, name_item, int_item,
  item_eq, JsonItem, json_text, json_int, json_list, json_dict, member_dict, MemberValue, JsonValue,
  encode, decode, as_string, ensure_strings_are_bytes, ensure_bytes_are_strings, new_member,
  read_member, read_members, read_override, read_overrides, from_value, write_member, write_members,
  write_items, write_override, write_overrides, to_json,
}

-- A name that has a text: a byte string must be UTF-8.
abbrev pub has_text : Name → Bool
has_text (text_name s) = true
has_text (bytes_name (utf8 s)) = true
has_text (bytes_name (ill_formed n)) = false

abbrev pub item_has_text : Item → Bool
item_has_text (name_item n) = has_text n
item_has_text (int_item n) = true

-- What is read of a name is its byte string.
abbrev pub as_bytes : Name → Name
as_bytes (text_name s) = bytes_name (utf8 s)
as_bytes (bytes_name b) = bytes_name b

abbrev pub item_as_bytes : Item → Item
item_as_bytes (name_item n) = name_item (as_bytes n)
item_as_bytes (int_item n) = int_item n

abbrev pub member_as_bytes : EtcdHashRingMember → EtcdHashRingMember
member_as_bytes m = record m { name = as_bytes m.name }

abbrev pub override_as_bytes : Item × List Item → Item × List Item
override_as_bytes o = (item_as_bytes o.0, map item_as_bytes o.1)

-- What a topology needs to be written and read.
abbrev pub IsWritable : EtcdHashRingMember → Type 0
IsWritable m = (1 ≤ m.num_replicas) × (has_text m.name ≡ true)

abbrev pub IsWritableOverride : Item × List Item → Type 0
IsWritableOverride o =
    (1 ≤ length o.1) × (item_has_text o.0 ≡ true) × All (λ i. item_has_text i ≡ true) o.1

new_member_ok :
    (n : Name) (k : ℕ) → 1 ≤ k → new_member n (pos k) ≡ ok (record { name = n; num_replicas = k })
unfolding new_member
new_member_ok n zero h = absurd (omega (arith, h))
new_member_ok n (suc k) h = refl

name_round :
    (n : Name)
    → has_text n ≡ true
    → (s : String) × (as_string n ≡ ok s) × (bytes_name (encode s) ≡ as_bytes n)
unfolding as_string encode decode
name_round (text_name s) h = (s, refl, refl)
name_round (bytes_name (utf8 s)) h = (s, refl, refl)
name_round (bytes_name (ill_formed n)) h = cc

member_round :
    (m : EtcdHashRingMember) (n : ℕ)
    → IsWritable m
    → (v : MemberValue) × (write_member m ≡ ok v) × (read_member v n ≡ ok (member_as_bytes m))
unfolding read_member write_member
member_round m n h =
    let (s, e, b) = name_round m.name h.1 in
    (
      member_dict (some s) (some (pos m.num_replicas)),
      rw (write_member, e) refl,
      ap (λ z. new_member z (pos m.num_replicas)) b
          ∙ new_member_ok (as_bytes m.name) m.num_replicas h.0,
    )

members_round :
    (ms : List EtcdHashRingMember) (n : ℕ)
    → All IsWritable ms
    → (vs : List MemberValue) × (write_members ms ≡ ok vs)
      × (read_members vs n ≡ ok (map member_as_bytes ms))
unfolding read_members write_members
members_round [] n h = ([], refl, refl)
members_round (m ∷ ms) n h =
    let (v, e, r) = member_round m n h.0 in
    let (vs, es, rs) = members_round ms n h.1 in
    (v ∷ vs, rw (write_members, e, es) refl, rw (read_members, r, rs) refl)

item_round :
    (i : Item)
    → item_has_text i ≡ true
    → (j : JsonItem) × (ensure_bytes_are_strings i ≡ ok j)
      × (ensure_strings_are_bytes j ≡ item_as_bytes i)
unfolding ensure_strings_are_bytes ensure_bytes_are_strings
item_round (name_item n) h =
    let (s, e, b) = name_round n h in (json_text s, rw e refl, ap name_item b)
item_round (int_item n) h = (json_int n, refl, refl)

items_round :
    (is : List Item)
    → All (λ i. item_has_text i ≡ true) is
    → (js : List JsonItem) × (write_items is ≡ ok js)
      × (map ensure_strings_are_bytes js ≡ map item_as_bytes is)
unfolding write_items
items_round [] h = ([], refl, refl)
items_round (i ∷ is) h =
    let (j, e, r) = item_round i h.0 in
    let (js, es, rs) = items_round is h.1 in (j ∷ js, rw (write_items, e, es) refl, rw (r, rs) refl)

override_round :
    (k : Item) (vs : List Item)
    → IsWritableOverride (k, vs)
    → (js : List JsonItem) × (write_override (k, vs) ≡ ok js)
      × (read_override js ≡ ok (override_as_bytes (k, vs)))
unfolding read_override write_override write_items
override_round k [] h = absurd (omega (arith, h.0))
override_round k (v ∷ vs) h =
    let (j, e, r) = item_round k h.1 in
    let (i, e', r') = item_round v h.2.0 in
    let (js, es, rs) = items_round vs h.2.1 in
    (
      j ∷ i ∷ js,
      rw (write_override, write_items, e, e', es) refl,
      rw (read_override, r, r', rs) refl,
    )

overrides_round :
    (os : Dict Item (List Item))
    → All IsWritableOverride os
    → (js : List (List JsonItem)) × (write_overrides os ≡ ok js)
      × ((d : Dict Item (List Item))
          → All (λ o. elem o.0 (keys d) ≡ false) (map override_as_bytes os)
          → IsDistinct (keys (map override_as_bytes os))
          → read_overrides js d ≡ ok (d ++ map override_as_bytes os))
unfolding read_overrides write_overrides
overrides_round [] h = ([], refl, λ d new u. rw (append-nil d) refl)
overrides_round ((k, vs) ∷ os) h =
    let (j, e, r) = override_round k vs h.0 in
    let (js, es, rs) = overrides_round os h.1 in
    let k' = item_as_bytes k in
    let vs' = map item_as_bytes vs in
    (
      j ∷ js,
      rw (write_overrides, e, es) refl,
      λ d new u.
          rw
            (
              read_overrides,
              r,
              put-new k' vs' d new.0,
              rs (d ++ (k', vs') ∷ []) (still_new k' vs' d (map override_as_bytes os) u.0 new.1)
                  u.1,
            )
            (ap ok (append_assoc d ((k', vs') ∷ []) (map override_as_bytes os))),
    )

-- A topology can be written, and it is then read again, whatever the default number of replicas, with
-- byte strings for its names and for the texts of its overrides, if each member has a replica, each
-- name and text that is a byte string is UTF-8, each override has a value, and the keys of the
-- overrides are distinct as byte strings.
pub from_value-to_json :
    (ms : List EtcdHashRingMember) (os : Dict Item (List Item)) (n : ℕ)
    → All IsWritable ms
    → All IsWritableOverride os
    → IsDistinct (keys (map override_as_bytes os))
    → (v : JsonValue) × (to_json ms os ≡ ok v)
      × (from_value v n
          ≡ ok (record { members = map member_as_bytes ms; overrides = map override_as_bytes os }))
unfolding from_value to_json
from_value-to_json ms [] n h v u =
    let (vs, e, r) = members_round ms n h in
    (json_list vs, rw (to_json, e) refl, rw (from_value, r) refl)
from_value-to_json ms (o ∷ os) n h v u =
    let (vs, e, r) = members_round ms n h in
    let (js, e', r') = overrides_round (o ∷ os) v in
    (
      json_dict (some "v1") (some vs) (some js),
      rw (to_json, e, e') refl,
      rw (from_value, r, r' [] (all_new (map override_as_bytes (o ∷ os))) u) refl,
    )
