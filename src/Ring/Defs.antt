-- ===== src/Ring/Defs.antt =====
-- `EtcdHashRing`: its state and its methods. Building a ring sleeps and uses a thread, which changes
-- nothing that it keeps.
use trust_and_safety_demo.Base.{
  ℕ, zero, ◌+◌, Bool, true, false, not, ◌&&◌, Option, none, some, List, [], ◌∷◌, ◌++◌, map,
  if◌then◌else◌, ◌==◌, string_eq, nat_eq, pos, elem, take, all, length, Result, ok, err, ◌>>=◌,
}
use trust_and_safety_demo.Base.Dict.{Dict, get, put, delete, contains}
use trust_and_safety_demo.Ring.Topology.{
  utf8, ill_formed, Name, text_name, bytes_name, name_eq, EtcdHashRingMember, Item, name_item,
  int_item, item_eq, JsonItem, MemberValue, JsonValue, EtcdHashRingTopology,
  ensure_strings_are_bytes, read_member, from_value, to_json,
}

-- `_is_watching` and what `_watch` keeps up to date.
pub record EtcdHashRing (R : Type 0) : Type 0 where
  pub is_watching : Bool
  pub members : Dict Name EtcdHashRingMember
  pub overrides : Dict Item (List Item)
  pub default_num_replicas : ℕ
  pub ring : R

-- An event of the watcher, with a JSON text of type `T`; the second is `FullSyncOneNoKey`.
pub data Event (T : Type 0) : Type 0 where
  full_sync_one : T → Event T
  full_sync_one_no_key : Event T

-- What `select` returns: one member, if there is one, or several.
pub data Selection : Type 0 where
  one : Option Item → Selection
  several : List Item → Selection

-- `EtcdHashRingMember.__eq__`
unfoldable pub same_member : EtcdHashRingMember → EtcdHashRingMember → Bool
same_member a b = a.name == b.name && a.num_replicas == b.num_replicas

-- A string or a byte string that is not empty, or a number that is not 0, counts as true.
unfoldable pub truthy : Item → Bool
truthy (name_item (text_name s)) = not (s == "")
truthy (name_item (bytes_name (utf8 s))) = not (s == "")
truthy (name_item (bytes_name (ill_formed n))) = true
truthy (int_item (pos zero)) = false
truthy (int_item _) = true

unfoldable pub select_one_override : Item → Dict Item (List Item) → Option Item
select_one_override key overrides = elim (get key overrides) [
  | none ↦ none
  | some os ↦ elim os [ [] ↦ none | o ∷ _ ↦ some o ]
]

-- The loop of `select`, which appends to the list that the overrides hold.
unfoldable pub append_nodes : List Item → List Item → List Item
append_nodes [] overrides = overrides
append_nodes (node ∷ nodes) overrides =
    append_nodes nodes (if elem node overrides then overrides else overrides ++ node ∷ [])

-- `{m.name: m for m in members}`, from the dict of those before.
unfoldable pub by_name :
    List EtcdHashRingMember → Dict Name EtcdHashRingMember → Dict Name EtcdHashRingMember
by_name [] d = d
by_name (m ∷ ms) d = by_name ms (put m.name m d)

-- The dict of the members, whether it is dirty, and whether the loop raised.
pub record Changed : Type 0 where
  pub members : Dict Name EtcdHashRingMember
  pub dirty : Bool
  pub outcome : Result (Unit {0})

-- The loops of `add`, `remove` and `update`.
unfoldable pub add_members : List MemberValue → ℕ → Dict Name EtcdHashRingMember → Bool → Changed
unfolding read_member same_member
add_members [] n d dirty = record { members = d; dirty = dirty; outcome = ok tt }
add_members (v ∷ vs) n d dirty = elim (read_member v n) [
  | err e ↦ record { members = d; dirty = dirty; outcome = err e }
  | ok m ↦
      if elim (get m.name d) [ none ↦ false | some old ↦ same_member old m ]
      then add_members vs n d dirty
      else add_members vs n (put m.name m d) true
]

unfoldable pub remove_members : List MemberValue → ℕ → Dict Name EtcdHashRingMember → Bool → Changed
unfolding read_member
remove_members [] n d dirty = record { members = d; dirty = dirty; outcome = ok tt }
remove_members (v ∷ vs) n d dirty = elim (read_member v n) [
  | err e ↦ record { members = d; dirty = dirty; outcome = err e }
  | ok m ↦
      if contains m.name d
      then remove_members vs n (delete m.name d) true
      else remove_members vs n d dirty
]

unfoldable pub update_members : List MemberValue → ℕ → Dict Name EtcdHashRingMember → Bool → Changed
unfolding read_member
update_members [] n d dirty = record { members = d; dirty = dirty; outcome = ok tt }
update_members (v ∷ vs) n d dirty = elim (read_member v n) [
  | err e ↦ record { members = d; dirty = dirty; outcome = err e }
  | ok m ↦
      if contains m.name d
      then update_members vs n (put m.name m d) true
      else update_members vs n d dirty
]

-- Equality of lists of items, and of overrides in any order.
unfoldable pub same_items : List Item → List Item → Bool
same_items [] [] = true
same_items (x ∷ xs) (y ∷ ys) = x == y && same_items xs ys
same_items _ _ = false

unfoldable pub same_overrides : Dict Item (List Item) → Dict Item (List Item) → Bool
unfolding same_items
same_overrides a b =
    length a == length b
    && all (λ p. elim (get p.0 b) [ none ↦ false | some os ↦ same_items p.1 os ]) a

-- The hash_ring package, json, the etcd client's `set` of the ring's key (the value that its event
-- holds), and the first event of the watcher.
module _ {R T : Type 0} (build : ℕ → List EtcdHashRingMember → R)
    (find_node : R → Item → Option Item) (find_nodes : R → Item → ℕ → List Item)
    (loads : T → Result JsonValue) (dumps : JsonValue → T) (set : T → Result T)
    (first : Result (Event T)) where
  unfoldable pub update_topology : EtcdHashRingTopology → EtcdHashRing R → EtcdHashRing R
  unfolding by_name
  update_topology t s = record s {
    ring = build s.default_num_replicas t.members;
    members = by_name t.members [];
    overrides = t.overrides;
  }

  unfoldable pub handle_event : Event T → EtcdHashRing R → Result (EtcdHashRing R)
  unfolding from_value
  handle_event (full_sync_one value) s = do
    v ← loads value
    t ← from_value v s.default_num_replicas
    ok (update_topology t s)
  handle_event full_sync_one_no_key s =
      ok (update_topology (record { members = []; overrides = [] }) s)

  unfoldable pub ensure_watching : EtcdHashRing R → Result (EtcdHashRing R)
  unfolding handle_event
  ensure_watching s =
      if s.is_watching
      then ok s
      else (do e ← first; s' ← handle_event e s; ok (record s' { is_watching = true }))

  unfoldable pub persist_topology : EtcdHashRing R → Result (EtcdHashRing R)
  unfolding update_topology from_value to_json
  persist_topology s = do
    value ← to_json (map (λ p. p.1) s.members) s.overrides
    stored ← set (dumps value)
    v ← loads stored
    t ← from_value v s.default_num_replicas
    ok (update_topology t s)

  -- What `add`, `remove` and `update` do after their loop: the ring that they leave, and whether
  -- they raised.
  unfoldable pub conclude : Changed → EtcdHashRing R → EtcdHashRing R × Result (Unit {0})
  unfolding persist_topology
  conclude c s =
      let s' = record s { members = c.members } in
      elim c.outcome [
        | err e ↦ (s', err e)
        | ok _ ↦
            if c.dirty
            then elim (persist_topology s') [ err e ↦ (s', err e) | ok s'' ↦ (s'', ok tt) ]
            else (s', ok tt)
      ]

  unfoldable pub change :
      (List MemberValue → ℕ → Dict Name EtcdHashRingMember → Bool → Changed)
      → List MemberValue
      → EtcdHashRing R
      → EtcdHashRing R × Result (Unit {0})
  unfolding ensure_watching conclude
  change loop vs s = elim (ensure_watching s) [
    | err e ↦ (s, err e)
    | ok s' ↦ conclude (loop vs s'.default_num_replicas s'.members false) s'
  ]

  unfoldable pub add : List MemberValue → EtcdHashRing R → EtcdHashRing R × Result (Unit {0})
  unfolding change add_members
  add = change add_members

  unfoldable pub remove : List MemberValue → EtcdHashRing R → EtcdHashRing R × Result (Unit {0})
  unfolding change remove_members
  remove = change remove_members

  unfoldable pub update : List MemberValue → EtcdHashRing R → EtcdHashRing R × Result (Unit {0})
  unfolding change update_members
  update = change update_members

  -- The setter of `overrides`, given a dict.
  unfoldable pub set_overrides :
      Dict Item (List Item) → EtcdHashRing R → EtcdHashRing R × Result (Unit {0})
  unfolding ensure_watching persist_topology same_overrides
  set_overrides overrides s = elim (ensure_watching s) [
    | err e ↦ (s, err e)
    | ok s' ↦
        if same_overrides s'.overrides overrides
        then (s', ok tt)
        else (let s'' = record s' { overrides = overrides } in
            elim (persist_topology s'') [ err e ↦ (s'', err e) | ok r ↦ (r, ok tt) ])
  ]

  unfoldable pub select : JsonItem → ℕ → EtcdHashRing R → Result (Selection × EtcdHashRing R)
  unfolding ensure_watching ensure_strings_are_bytes select_one_override append_nodes truthy
  select key secondaries s = do
    s' ← ensure_watching s
    let k = ensure_strings_are_bytes key
    if secondaries == 0
        then elim (select_one_override k s'.overrides) [
          | none ↦ ok (one (find_node s'.ring k), s')
          | some o ↦ ok (one (if truthy o then some o else find_node s'.ring k), s')
        ]
        else elim (get k s'.overrides) [
          | none ↦ ok (several (find_nodes s'.ring k (secondaries + 1)), s')
          | some os ↦
              let os' = append_nodes (find_nodes s'.ring k (secondaries + 1)) os in
              ok (
                several (take (secondaries + 1) os'),
                record s' { overrides = put k os' s'.overrides },
              )
        ]
