-- ===== src/Ring/Persisting.antt =====
-- `add`: which members a ring then keeps, and what becomes of them in etcd.
use trust_and_safety_demo.Base.{
  ℕ, ◌≡◌, ◌⊎◌, Option, List, [], map, nat_eq, string_eq, All, IsDistinct, Error, Result, ok, err,
}
use trust_and_safety_demo.Base.Dict.{Dict, keys}
use trust_and_safety_demo.Ring.Topology.{Name, Item, item_eq, JsonValue, EtcdHashRingMember}
use trust_and_safety_demo.Ring.RoundTrip.{IsWritableOverride, member_as_bytes, override_as_bytes}
use trust_and_safety_demo.Ring.Defs.{EtcdHashRing, Event, by_name}

-- The members of a dict in order.
abbrev pub members_of : Dict Name EtcdHashRingMember → List EtcdHashRingMember
members_of d = map (λ p. p.1) d

-- Overrides that can be written and read.
pub record AreWritable (d : Dict Item (List Item)) : Type 0 where
  pub writable : All IsWritableOverride d
  pub distinct : IsDistinct (keys (map override_as_bytes d))

-- What json wrote it reads, and the event of a `set` that etcd accepts holds the value that was set.
module _ {R T : Type 0} (build : ℕ → List EtcdHashRingMember → R)
    (find_node : R → Item → Option Item) (find_nodes : R → Item → ℕ → List Item)
    (loads : T → Result JsonValue) (dumps : JsonValue → T) (set : T → Result T)
    (first : Result (Event T)) (loads-dumps : (v : JsonValue) → loads (dumps v) ≡ ok v)
    (set_lem : (t : T) → (set t ≡ ok t) ⊎ ((e : Error) × (set t ≡ err e))) where
  -- The ring that is read of what the ring wrote.
  abbrev pub stored : EtcdHashRing R → EtcdHashRing R
  stored s =
      let ms = map member_as_bytes (members_of s.members) in
      record s {
        members = by_name ms [];
        overrides = map override_as_bytes s.overrides;
        ring = build s.default_num_replicas ms;
      }
