-- ===== src/Ring/Topology.antt =====
-- `EtcdHashRingTopology`: what the ring's value in etcd says, and how it is written.
use trust_and_safety_demo.Base.{
  ℕ, suc, String, Bool, true, false, Option, none, some, List, [], ◌∷◌, map, if◌then◌else◌, Eq,
  ◌==◌, string_eq, nat_eq, arith, ◌↔◌, ◌≡◌, ℤ, pos, negsuc, Result, ok, err, value_error, key_error,
  assertion_error, ◌>>=◌,
}
use trust_and_safety_demo.Base.Dict.{Dict, put}

-- A byte string: the UTF-8 of a text, or one that is not UTF-8, of which only its identity matters. A
-- text here has no lone surrogates, so that it can be encoded.
pub data Bytes : Type 0 where
  utf8 : String → Bytes
  ill_formed : ℕ → Bytes

-- The exceptions of decoding are UnicodeDecodeError, a ValueError.
unfoldable pub encode : String → Bytes
encode s = utf8 s

unfoldable pub decode : Bytes → Result String
decode (utf8 s) = ok s
decode (ill_formed n) = err value_error

-- A name: the code that builds a member may give it as `str` or as `bytes`, which are not equal.
pub data Name : Type 0 where
  text_name : String → Name
  bytes_name : Bytes → Name

-- A member's name, and `num_replicas`, which is at least 1.
pub record EtcdHashRingMember : Type 0 where
  pub name : Name
  pub num_replicas : ℕ

unfoldable pub new_member : Name → ℤ → Result EtcdHashRingMember
new_member name (pos (suc n)) = ok (record { name = name; num_replicas = suc n })
new_member name _ = err value_error

-- A key or a value of the overrides in the program, and in JSON.
pub data Item : Type 0 where
  name_item : Name → Item
  int_item : ℤ → Item

pub data JsonItem : Type 0 where
  json_text : String → JsonItem
  json_int : ℤ → JsonItem

abbrev bytes_beq : Bytes → Bytes → Bool
bytes_beq (utf8 a) (utf8 b) = a == b
bytes_beq (ill_formed m) (ill_formed n) = m == n
bytes_beq _ _ = false

bytes_beq_iff : (a b : Bytes) → (bytes_beq a b ≡ true) ↔ (a ≡ b)
bytes_beq_iff (utf8 a) (utf8 b) = ground (arith, string_eq.beq_iff a b)
bytes_beq_iff (ill_formed m) (ill_formed n) = ground arith
bytes_beq_iff (utf8 a) (ill_formed n) = ground arith
bytes_beq_iff (ill_formed m) (utf8 b) = ground arith

abbrev name_beq : Name → Name → Bool
name_beq (text_name a) (text_name b) = a == b
name_beq (bytes_name a) (bytes_name b) = bytes_beq a b
name_beq _ _ = false

pub name_beq_iff : (a b : Name) → (name_beq a b ≡ true) ↔ (a ≡ b)
name_beq_iff (text_name a) (text_name b) = ground (arith, string_eq.beq_iff a b)
name_beq_iff (bytes_name a) (bytes_name b) = ground (arith, bytes_beq_iff a b)
name_beq_iff (text_name a) (bytes_name b) = ground arith
name_beq_iff (bytes_name a) (text_name b) = ground arith

instance abbrev pub name_eq : Eq Name
name_eq = record { beq = name_beq; beq_iff = name_beq_iff }

abbrev pub int_beq : ℤ → ℤ → Bool
int_beq (pos m) (pos n) = m == n
int_beq (negsuc m) (negsuc n) = m == n
int_beq _ _ = false

int_beq_iff : (a b : ℤ) → (int_beq a b ≡ true) ↔ (a ≡ b)
int_beq_iff (pos m) (pos n) = ground arith
int_beq_iff (negsuc m) (negsuc n) = ground arith
int_beq_iff (pos m) (negsuc n) = ground arith
int_beq_iff (negsuc m) (pos n) = ground arith

abbrev pub item_beq : Item → Item → Bool
item_beq (name_item a) (name_item b) = a == b
item_beq (int_item m) (int_item n) = int_beq m n
item_beq _ _ = false

pub item_beq_iff : (a b : Item) → (item_beq a b ≡ true) ↔ (a ≡ b)
item_beq_iff (name_item a) (name_item b) = ground (arith, name_beq_iff a b)
item_beq_iff (int_item m) (int_item n) = ground (arith, int_beq_iff m n)
item_beq_iff (name_item a) (int_item n) = ground arith
item_beq_iff (int_item m) (name_item b) = ground arith

instance abbrev pub item_eq : Eq Item
item_eq = record { beq = item_beq; beq_iff = item_beq_iff }

-- What `read_member` takes: a text, a dict with the two keys or without them, a member, or any
-- other value.
pub data MemberValue : Type 0 where
  member_text : String → MemberValue
  member_dict : Option String → Option ℤ → MemberValue
  member_object : EtcdHashRingMember → MemberValue
  member_other : MemberValue

-- The value of etcd, once it is read as JSON: a list, a dict with the keys that are there, or any
-- other value.
pub data JsonValue : Type 0 where
  json_list : List MemberValue → JsonValue
  json_dict : Option String → Option (List MemberValue) → Option (List (List JsonItem)) → JsonValue
  json_other : JsonValue

-- An override is a key and its values.
pub record EtcdHashRingTopology : Type 0 where
  pub members : List EtcdHashRingMember
  pub overrides : List (Item × List Item)

unfoldable pub ensure_strings_are_bytes : JsonItem → Item
unfolding encode
ensure_strings_are_bytes (json_text s) = name_item (bytes_name (encode s))
ensure_strings_are_bytes (json_int n) = int_item n

-- `name if isinstance(name, str) else name.decode()`
unfoldable pub as_string : Name → Result String
unfolding decode
as_string (text_name s) = ok s
as_string (bytes_name b) = decode b

unfoldable pub ensure_bytes_are_strings : Item → Result JsonItem
unfolding as_string
ensure_bytes_are_strings (name_item n) = do s ← as_string n; ok (json_text s)
ensure_bytes_are_strings (int_item n) = ok (json_int n)

unfoldable pub read_member : MemberValue → ℕ → Result EtcdHashRingMember
unfolding encode new_member
read_member (member_text s) default_num_replicas =
    new_member (bytes_name (encode s)) (pos default_num_replicas)
read_member (member_dict (some name) (some n)) default_num_replicas =
    new_member (bytes_name (encode name)) n
read_member (member_dict _ _) default_num_replicas = err key_error
read_member (member_object m) default_num_replicas = ok m
read_member member_other default_num_replicas = err value_error

-- A member whose value is wrong is dropped; any other exception stands.
unfoldable pub read_members : List MemberValue → ℕ → Result (List EtcdHashRingMember)
unfolding read_member
read_members [] default_num_replicas = ok []
read_members (v ∷ vs) default_num_replicas =
    let rest = read_members vs default_num_replicas in
    elim (read_member v default_num_replicas) [
      | ok m ↦ rest >>= (λ ms. ok (m ∷ ms))
      | err value_error ↦ rest
      | err e ↦ err e
    ]

unfoldable pub read_override : List JsonItem → Result (Item × List Item)
unfolding ensure_strings_are_bytes
read_override (key ∷ value ∷ values) =
    ok (ensure_strings_are_bytes key, map ensure_strings_are_bytes (value ∷ values))
read_override _ = err assertion_error

-- `dict([read_override(o) for o in overrides])`, from the dict of those before.
unfoldable pub read_overrides :
    List (List JsonItem) → Dict Item (List Item) → Result (Dict Item (List Item))
unfolding read_override
read_overrides [] d = ok d
read_overrides (o ∷ os) d = do (k, vs) ← read_override o; read_overrides os (put k vs d)

unfoldable pub from_value : JsonValue → ℕ → Result EtcdHashRingTopology
unfolding read_members read_overrides
from_value (json_list vs) n = do
  members ← read_members vs n
  ok (record { members = members; overrides = [] })
from_value (json_dict (some schema) members overrides) n =
    if schema == "v1"
    then elim members [
      | none ↦ err key_error
      | some vs ↦ do
        ms ← read_members vs n
        elim overrides [
          | none ↦ err key_error
          | some os ↦ do d ← read_overrides os []; ok (record { members = ms; overrides = d })
        ]
    ]
    else err value_error
from_value _ n = err value_error

unfoldable pub write_member : EtcdHashRingMember → Result MemberValue
unfolding as_string
write_member m = do s ← as_string m.name; ok (member_dict (some s) (some (pos m.num_replicas)))

unfoldable pub write_members : List EtcdHashRingMember → Result (List MemberValue)
unfolding write_member
write_members [] = ok []
write_members (m ∷ ms) = do v ← write_member m; vs ← write_members ms; ok (v ∷ vs)

unfoldable pub write_items : List Item → Result (List JsonItem)
unfolding ensure_bytes_are_strings
write_items [] = ok []
write_items (i ∷ is) = do j ← ensure_bytes_are_strings i; js ← write_items is; ok (j ∷ js)

unfoldable pub write_override : Item × List Item → Result (List JsonItem)
unfolding write_items
write_override (key, overrides) = write_items (key ∷ overrides)

unfoldable pub write_overrides : List (Item × List Item) → Result (List (List JsonItem))
unfolding write_override
write_overrides [] = ok []
write_overrides (o ∷ os) = do j ← write_override o; js ← write_overrides os; ok (j ∷ js)

-- Before `json.dumps`.
unfoldable pub to_json : List EtcdHashRingMember → List (Item × List Item) → Result JsonValue
unfolding write_members write_overrides
to_json members [] = do vs ← write_members members; ok (json_list vs)
to_json members (o ∷ os) = do
  vs ← write_members members
  js ← write_overrides (o ∷ os)
  ok (json_dict (some "v1") (some vs) (some js))
