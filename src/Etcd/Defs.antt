-- ===== src/Etcd/Defs.antt =====
-- The update loop of `EtcdSet` and `EtcdDict`, which writes only what was computed from the value that
-- is there, and the methods that use it. The server and its other clients are behind `Client`.
use trust_and_safety_demo.Base.{
  ℕ, zero, suc, Bool, true, false, not, Option, none, some, List, [], ◌∷◌, ◌++◌, map, Eq, elem,
  filter, ◌==◌, if◌then◌else◌, Error, Result, ok, err, key_error, ◌>>=◌,
}
use trust_and_safety_demo.Base.Dict.{Dict, get, put, delete}

-- The errors of etcd that the code tells apart, and any other.
pub data EtcdError : Type 0 where
  key_not_found compare_failed node_exists other_error : EtcdError

pub data Reply (A : Type 0) : Type 0 where
  accepted : A → Reply A
  refused : EtcdError → Reply A

-- `prev_index=…` or `prev_exist=False`
pub data Condition : Type 0 where
  prev_index : ℕ → Condition
  prev_missing : Condition

-- A node: its value and `modified_index`.
pub record EtcdNode (T : Type 0) : Type 0 where
  pub value : T
  pub modified_index : ℕ

-- The client for one key. A world is what the server and its other clients are before a call.
pub record Client (W T : Type 0) : Type 0 where
  pub get_node : W → Reply (EtcdNode T) × W
  pub set_node : T → Condition → W → Reply (Unit {0}) × W
  pub sleep : W → W

pub data Raised : Type 0 where
  etcd_error : EtcdError → Raised
  python_error : Error → Raised

-- How an update ends: with what it returns and the object that it leaves in place of the old one, or
-- with an exception.
pub data Ending (R S : Type 0) : Type 0 where
  returned : R → S → Ending R S
  raised : Raised → Ending R S

-- How a round ends: the update does, or it is tried again.
pub data Step (R S W : Type 0) : Type 0 where
  ended : Ending R S → W → Step R S W
  again : W → Step R S W

-- The first `try`: the object to update and the condition of its write, or an exception.
pub data Fetched (S : Type 0) : Type 0 where
  fetched : S → Condition → Fetched S
  failed : Raised → Fetched S

module _ {T S : Type 0} (loads : T → Result S) (empty : S) where
  unfoldable pub fetch : Reply (EtcdNode T) → Fetched S
  fetch (accepted node) = elim (loads node.value) [
    | ok s ↦ fetched s (prev_index node.modified_index)
    | err e ↦ failed (python_error e)
  ]
  fetch (refused key_not_found) = fetched empty prev_missing
  fetch (refused compare_failed) = failed (etcd_error compare_failed)
  fetch (refused node_exists) = failed (etcd_error node_exists)
  fetch (refused other_error) = failed (etcd_error other_error)

module _ {W T R S : Type 0} (client : Client W T) (loads : T → Result S) (dumps : S → T) (empty : S)
    (before_state : S → R) (updater : S → Result S) where
  -- The second `try`, on what `set` has answered.
  unfoldable pub conclude : S → S → Reply (Unit {0}) → W → Step R S W
  conclude s s' (accepted u) w = ended (returned (before_state s) s') w
  conclude s s' (refused compare_failed) w = again (client.sleep w)
  conclude s s' (refused key_not_found) w = ended (raised (etcd_error key_not_found)) w
  conclude s s' (refused node_exists) w = ended (raised (etcd_error node_exists)) w
  conclude s s' (refused other_error) w = ended (raised (etcd_error other_error)) w

  -- The body of the loop from where the object was read.
  unfoldable pub write_back : Fetched S → W → Step R S W
  unfolding conclude
  write_back (failed e) w = ended (raised e) w
  write_back (fetched s condition) w = elim (updater s) [
    | err e ↦ ended (raised (python_error e)) w
    | ok s' ↦
        conclude s s' (client.set_node (dumps s') condition w).0
          (client.set_node (dumps s') condition w).1
  ]

  -- The body of the loop of `_cas_atomic_update(before_state, updater)`.
  unfoldable pub attempt : W → Step R S W
  unfolding fetch write_back
  attempt w = write_back (fetch loads empty (client.get_node w).0) (client.get_node w).1

  -- The loop: how it ends and the world after it, or nothing if `fuel` rounds are not enough.
  unfoldable pub cas_atomic_update : ℕ → W → Option (Ending R S × W)
  unfolding attempt
  cas_atomic_update zero w = none
  cas_atomic_update (suc fuel) w = elim (attempt w) [
    | ended ending w' ↦ some (ending, w')
    | again w' ↦ cas_atomic_update fuel w'
  ]

-- `EtcdSet`: the items are those of the Python set, each once.
module _ {A : Type 0} ⦃e : Eq A⦄ where
  -- `s.add(item)` and `s.discard(item)`
  unfoldable pub add_item : A → List A → List A
  add_item item s = if elem item s then s else s ++ item ∷ []

  unfoldable pub discard_item : A → List A → List A
  discard_item item s = filter (λ x. not (x == item)) s

module _ {A I : Type 0} ⦃e : Eq A⦄ where
  -- `_deserialize`, on the items that the serializer has read.
  unfoldable pub deserialize_items : (I → A) → List I → List A → List A
  unfolding add_item
  deserialize_items decode [] s = s
  deserialize_items decode (i ∷ is) s = deserialize_items decode is (add_item (decode i) s)

  unfoldable pub deserialize : {T : Type 0} → (T → Result (List I)) → (I → A) → T → Result (List A)
  unfolding deserialize_items
  deserialize loads decode value = do items ← loads value; ok (deserialize_items decode items [])

-- The serializer and the hooks of a set.
pub record SetFormat (T A I : Type 0) : Type 0 where
  pub loads : T → Result (List I)
  pub dumps : List I → T
  pub encode : A → I
  pub decode : I → A

module _ {W T A I : Type 0} ⦃e : Eq A⦄ (client : Client W T) (format : SetFormat T A I) where
  unfoldable pub update_set :
      {R : Type 0}
      → (List A → R)
      → (List A → Result (List A))
      → ℕ
      → W
      → Option (Ending R (List A) × W)
  unfolding cas_atomic_update deserialize
  update_set before_state updater fuel w =
      cas_atomic_update client (deserialize format.loads format.decode)
        (λ s. format.dumps (map format.encode s)) [] before_state updater fuel w

  -- `add`, `discard`, `clear` and `update`
  unfoldable pub add : A → ℕ → W → Option (Ending Bool (List A) × W)
  unfolding update_set add_item
  add item = update_set (λ s. not (elem item s)) (λ s. ok (add_item item s))

  unfoldable pub discard : A → ℕ → W → Option (Ending Bool (List A) × W)
  unfolding update_set discard_item
  discard item = update_set (λ s. elem item s) (λ s. ok (discard_item item s))

  unfoldable pub clear : ℕ → W → Option (Ending Bool (List A) × W)
  unfolding update_set
  clear = update_set (λ s. elim s [ [] ↦ false | _ ∷ _ ↦ true ]) (λ s. ok [])

  unfoldable pub update :
      (List A → Result (List A)) → ℕ → W → Option (Ending (Unit {0}) (List A) × W)
  unfolding update_set
  update updater_fn = update_set (λ s. tt) updater_fn

-- `del new_dict[key]`
unfoldable pub delete_key : {K V : Type 0} ⦃e : Eq K⦄ → K → Dict K V → Result (Dict K V)
delete_key key d = elim (get key d) [ none ↦ err key_error | some v ↦ ok (delete key d) ]

-- `EtcdDict`
module _ {W T K V : Type 0} ⦃e : Eq K⦄ (client : Client W T) (loads : T → Result (Dict K V))
    (dumps : Dict K V → T) where
  unfoldable pub update_dict :
      (Dict K V → Result (Dict K V)) → ℕ → W → Option (Ending (Unit {0}) (Dict K V) × W)
  unfolding cas_atomic_update
  update_dict updater = cas_atomic_update client loads dumps [] (λ d. tt) updater

  -- `__delitem__`, `__setitem__`, `clear` and `replace_with`
  unfoldable pub delitem : K → ℕ → W → Option (Ending (Unit {0}) (Dict K V) × W)
  unfolding update_dict delete_key
  delitem key = update_dict (delete_key key)

  unfoldable pub setitem : K → V → ℕ → W → Option (Ending (Unit {0}) (Dict K V) × W)
  unfolding update_dict
  setitem key value = update_dict (λ d. ok (put key value d))

  unfoldable pub clear_dict : ℕ → W → Option (Ending (Unit {0}) (Dict K V) × W)
  unfolding update_dict
  clear_dict = update_dict (λ d. ok [])

  unfoldable pub replace_with : Dict K V → ℕ → W → Option (Ending (Unit {0}) (Dict K V) × W)
  unfolding update_dict
  replace_with new_dict = update_dict (λ d. ok new_dict)
