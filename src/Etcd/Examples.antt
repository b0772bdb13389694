-- ===== src/Etcd/Examples.antt =====
-- A server with one key, where others write between the `get` and the `set` of the client, and
-- witnesses of the theorems.
use trust_and_safety_demo.Base.{
  ℕ, suc, ◌<◌, ◌≡◌, refl, sym, ap, ◌∙◌, true, not, ◌||◌, ◌&&◌, Option, none, some, List, [], ◌∷◌,
  map, nat_eq, ◌==◌, elem, if◌then◌else◌, IsDistinct, ok, is_some, length, arith,
}
use trust_and_safety_demo.Etcd.Defs.{
  key_not_found, compare_failed, node_exists, Reply, accepted, refused, Condition, prev_index,
  prev_missing, EtcdNode, Client, returned, raised, etcd_error, SetFormat, deserialize, add_item,
  cas_atomic_update, add, discard,
}
use trust_and_safety_demo.Etcd.Atomic.{IsEtcd}
use trust_and_safety_demo.Etcd.Rounds.{condition_of, IsQuieting, cas_atomic_update-ends}
use trust_and_safety_demo.Etcd.Updates.{HoldsSet, add_lem, discard_lem}

-- The node of the key, what others will write, and how often this client has written.
record World : Type 0 where
  node : Option (EtcdNode (List ℕ))
  pending : List (List ℕ)
  writes : ℕ

unfoldable next_node : List ℕ → Option (EtcdNode (List ℕ)) → EtcdNode (List ℕ)
next_node v none = record { value = v; modified_index = 1 }
next_node v (some n) = record { value = v; modified_index = suc n.modified_index }

unfoldable others_write : List (List ℕ) → Option (EtcdNode (List ℕ)) → ℕ → World
others_write [] node k = record { node = node; pending = []; writes = k }
others_write (v ∷ vs) node k = record { node = some (next_node v node); pending = vs; writes = k }

unfoldable find : Option (EtcdNode (List ℕ)) → Reply (EtcdNode (List ℕ))
find none = refused key_not_found
find (some n) = accepted n

unfoldable write :
    List ℕ → Condition → Option (EtcdNode (List ℕ)) → List (List ℕ) → ℕ → Reply (Unit {0}) × World
write v (prev_index i) none vs k =
    (refused key_not_found, record { node = none; pending = vs; writes = k })
write v (prev_index i) (some n) vs k =
    if n.modified_index == i
    then (accepted tt, record { node = some (next_node v (some n)); pending = vs; writes = suc k })
    else (refused compare_failed, record { node = some n; pending = vs; writes = k })
write v prev_missing none vs k =
    (accepted tt, record { node = some (next_node v none); pending = vs; writes = suc k })
write v prev_missing (some n) vs k =
    (refused node_exists, record { node = some n; pending = vs; writes = k })

unfoldable server : Client World (List ℕ)
unfolding find others_write write next_node
server = record {
  get_node = λ w. (find w.node, others_write w.pending w.node w.writes);
  set_node = λ v c w. write v c w.node w.pending w.writes;
  sleep = λ w. w;
}

server-same_index :
    (node : Option (EtcdNode (List ℕ))) (vs : List (List ℕ)) (k : ℕ) (n m : EtcdNode (List ℕ))
    → find node ≡ accepted n
    → (others_write vs node k).node ≡ some m
    → m.modified_index ≡ n.modified_index
    → m.value ≡ n.value
unfolding find others_write next_node
server-same_index none vs z n m f c i = cc
server-same_index (some k) [] z n m f c i = cc
server-same_index (some k) (v ∷ vs) z n m f c i =
    let a : k ≡ n = ground arith in
    let b : record { value = v; modified_index = suc k.modified_index } ≡ m = ground arith in
    let i' : suc k.modified_index ≡ k.modified_index =
      ap (λ (x : EtcdNode (List ℕ)). x.modified_index) b
      ∙ i
      ∙ sym (ap (λ (x : EtcdNode (List ℕ)). x.modified_index) a) in
    absurd (omega (arith, i'))

server-set_index :
    (t : List ℕ) (i : ℕ) (node : Option (EtcdNode (List ℕ))) (vs : List (List ℕ)) (k : ℕ)
    → (write t (prev_index i) node vs k).0 ≡ accepted tt
    → (n : EtcdNode (List ℕ)) × (node ≡ some n) × (n.modified_index ≡ i)
unfolding write
server-set_index t i none vs k e = cc
server-set_index t i (some n) vs k e = (n, refl, ground arith)

server-set_missing :
    (t : List ℕ) (node : Option (EtcdNode (List ℕ))) (vs : List (List ℕ)) (k : ℕ)
    → (write t prev_missing node vs k).0 ≡ accepted tt
    → node ≡ none
unfolding write
server-set_missing t none vs k e = refl
server-set_missing t (some n) vs k e = cc

server-IsEtcd : IsEtcd server
unfolding server
server-IsEtcd = record {
  current = λ w. w.node;
  same_index = λ w n m. server-same_index w.node w.pending w.writes n m;
  set_index = λ t i w. server-set_index t i w.node w.pending w.writes;
  set_missing = λ t w. server-set_missing t w.node w.pending w.writes;
}

server-refusing :
    (t : List ℕ) (node : Option (EtcdNode (List ℕ))) (vs : List (List ℕ)) (k : ℕ)
    → (write t
        (condition_of (find node))
        (others_write vs node k).node
        (others_write vs node k).pending
        (others_write vs node k).writes).0
      ≡ refused compare_failed
    → length
        (write t
          (condition_of (find node))
          (others_write vs node k).node
          (others_write vs node k).pending
          (others_write vs node k).writes).1.pending
      < length vs
unfolding write find others_write condition_of next_node
server-refusing t none [] k e = cc
server-refusing t none (v ∷ vs) k e = cc
server-refusing t (some n) [] k e = absurd (ground arith)
server-refusing t (some n) (v ∷ vs) k e = ground arith

server-IsQuieting : IsQuieting server (λ w. length w.pending)
unfolding server
server-IsQuieting = record { refusing = λ t w. server-refusing t w.node w.pending w.writes }

abbrev numbers : SetFormat (List ℕ) ℕ ℕ
numbers = record { loads = λ v. ok v; dumps = λ v. v; encode = λ n. n; decode = λ n. n }

-- The key holds {1, 2}, and another client writes {3} after the first `get`.
abbrev contended : World
contended = record {
  node = some (record { value = 1 ∷ 2 ∷ []; modified_index = 5 });
  pending = (3 ∷ []) ∷ [];
  writes = 0;
}

abbrev added : World
added = record {
  node = some (record { value = 3 ∷ 7 ∷ []; modified_index = 7 });
  pending = [];
  writes = 1;
}

abbrev discarded : World
discarded = record {
  node = some (record { value = []; modified_index = 7 });
  pending = [];
  writes = 1;
}

add_7 : add server numbers 7 2 contended ≡ some (returned true (3 ∷ 7 ∷ []), added)
unfolding add server
add_7 = refl

discard_3 : discard server numbers 3 2 contended ≡ some (returned true [], discarded)
unfolding discard server
discard_3 = refl

-- Another client creates the key after it was found missing: the update raises.
created_by_another :
    add server numbers 7 2 (record { node = none; pending = (3 ∷ []) ∷ []; writes = 0 })
    ≡ some (
      raised (etcd_error node_exists),
      record {
        node = some (record { value = 3 ∷ []; modified_index = 1 });
        pending = [];
        writes = 0;
      },
    )
unfolding add server
created_by_another = refl

cas_atomic_update-ends_example :
    is_some (
      cas_atomic_update server
        (deserialize numbers.loads numbers.decode)
        (λ s. numbers.dumps (map numbers.encode s))
        []
        (λ s. not (elem 7 s))
        (λ s. ok (add_item 7 s))
        2
        contended)
    ≡ true
cas_atomic_update-ends_example =
    cas_atomic_update-ends server (deserialize numbers.loads numbers.decode)
      (λ s. numbers.dumps (map numbers.encode s)) [] (λ s. not (elem 7 s)) (λ s. ok (add_item 7 s))
      (λ w. length w.pending) server-IsQuieting 2 contended (omega arith)

add_lem_example :
    (at : World) × (old : List ℕ) × HoldsSet server server-IsEtcd numbers at old
    × (true ≡ not (elem 7 old))
    × ((y : ℕ) → elem y (3 ∷ 7 ∷ []) ≡ (7 == y || elem y old))
    × IsDistinct {A = ℕ} (3 ∷ 7 ∷ [])
    × ((c : Condition) × (server.set_node (numbers.dumps (map numbers.encode (3 ∷ 7 ∷ []))) c at
          ≡ (accepted tt, added)))
add_lem_example = add_lem server server-IsEtcd numbers 7 2 contended true (3 ∷ 7 ∷ []) added add_7

discard_lem_example :
    (at : World) × (old : List ℕ) × HoldsSet server server-IsEtcd numbers at old
    × (true ≡ elem 3 old)
    × ((y : ℕ) → elem y [] ≡ (not (3 == y) && elem y old))
    × IsDistinct {A = ℕ} []
    × ((c : Condition) × (server.set_node (numbers.dumps (map numbers.encode [])) c at
          ≡ (accepted tt, discarded)))
discard_lem_example =
    discard_lem server server-IsEtcd numbers 3 2 contended true [] discarded discard_3
