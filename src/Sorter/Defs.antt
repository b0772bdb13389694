-- ===== src/Sorter/Defs.antt =====
-- The state of a `TopologicalSorter` and its methods.
use trust_and_safety_demo.Base.{
  ℕ, zero, suc, ◌+◌, Bool, true, false, none, some, List, [], ◌∷◌, ◌++◌, filter, map, length,
  if◌then◌else◌, ltb, ◌==◌, nat_eq, ◌||◌, Result, ok, err, value_error, key_error, assertion_error,
  ◌>>=◌,
}
use trust_and_safety_demo.Base.Dict.{Dict, get, put, contains}
pub use trust_and_safety_demo.Base.{ℤ, pos, negsuc}

abbrev pub node_out : ℤ
node_out = negsuc 0

abbrev pub node_done : ℤ
node_done = negsuc 1

-- `n - 1` and `n + k`
unfoldable pub decrement : ℤ → ℤ
decrement (pos zero) = negsuc 0
decrement (pos (suc n)) = pos n
decrement (negsuc n) = negsuc (suc n)

unfoldable pub increase : ℤ → ℕ → ℤ
increase n zero = n
increase (pos n) k = pos (n + k)
increase (negsuc zero) (suc k) = pos k
increase (negsuc (suc n)) (suc k) = increase (negsuc n) k

unfoldable pub is_zero : ℤ → Bool
is_zero (pos zero) = true
is_zero _ = false

unfoldable pub is_out : ℤ → Bool
is_out (negsuc zero) = true
is_out _ = false

unfoldable pub is_done : ℤ → Bool
is_done (negsuc (suc zero)) = true
is_done _ = false

pub record NodeInfo : Type 0 where
  pub npredecessors : ℤ
  pub successors : List ℕ

pub record TopologicalSorter : Type 0 where
  pub node2info : Dict ℕ NodeInfo
  pub ready_nodes : List ℕ
  pub npassedout : ℕ
  pub nfinished : ℕ
  pub needs_prepare : Bool

-- `TopologicalSorter()`
abbrev pub empty : TopologicalSorter
empty = record {
  node2info = [];
  ready_nodes = [];
  npassedout = 0;
  nfinished = 0;
  needs_prepare = true;
}

-- `_get_nodeinfo(node)`: the info, and the dict that now has it.
unfoldable pub get_nodeinfo : ℕ → Dict ℕ NodeInfo → NodeInfo × Dict ℕ NodeInfo
get_nodeinfo node d = elim (get node d) [
  | some info ↦ (info, d)
  | none ↦
      let info : NodeInfo = record { npredecessors = pos 0; successors = [] } in
      (info, put node info d)
]

unfoldable pub already_added : ℕ → TopologicalSorter → Bool
already_added node s = contains node s.node2info

-- The body of the loop of `add`: the dict and `num_new_predecessors`.
unfoldable pub link : ℕ → ℕ → Dict ℕ NodeInfo × ℕ → Dict ℕ NodeInfo × ℕ
link node pred (d, num) =
    let (pred_info, d') = get_nodeinfo pred d in
    if is_done pred_info.npredecessors then (d', num) else (
      put pred (record pred_info { successors = pred_info.successors ++ node ∷ [] }) d',
      num + 1,
    )

unfoldable pub link_all : ℕ → List ℕ → Dict ℕ NodeInfo × ℕ → Dict ℕ NodeInfo × ℕ
link_all node [] acc = acc
link_all node (pred ∷ preds) acc = link_all node preds (link node pred acc)

-- `nodeinfo.npredecessors += num_new_predecessors`, on the info that the dict holds.
unfoldable pub raise_count : ℕ → Dict ℕ NodeInfo × ℕ → Dict ℕ NodeInfo
unfolding increase
raise_count node (d, num) = elim (get node d) [
  | none ↦ d
  | some info ↦ put node (record info { npredecessors = increase info.npredecessors num }) d
]

unfoldable pub add : ℕ → List ℕ → TopologicalSorter → Result TopologicalSorter
unfolding already_added
add node predecessors s =
    if already_added node s
    then err value_error
    else ok (record s {
      node2info =
          raise_count node (link_all node predecessors ((get_nodeinfo node s.node2info).1, 0));
      needs_prepare = true;
    })

unfoldable pub prepare : TopologicalSorter → TopologicalSorter
unfolding is_zero
prepare s =
    if s.needs_prepare
    then record s {
      ready_nodes = map (λ p. p.0) (filter (λ p. is_zero p.1.npredecessors) s.node2info);
      needs_prepare = false;
    }
    else s

-- `n2i[node].npredecessors = _NODE_OUT`, and the loop over the nodes that are passed out.
unfoldable pub pass_out : ℕ → Dict ℕ NodeInfo → Result (Dict ℕ NodeInfo)
pass_out node d = elim (get node d) [
  | none ↦ err key_error
  | some info ↦ ok (put node (record info { npredecessors = node_out }) d)
]

unfoldable pub pass_all_out : List ℕ → Dict ℕ NodeInfo → Result (Dict ℕ NodeInfo)
unfolding pass_out
pass_all_out [] d = ok d
pass_all_out (node ∷ nodes) d = do d' ← pass_out node d; pass_all_out nodes d'

unfoldable pub get_ready : TopologicalSorter → Result (List ℕ × TopologicalSorter)
unfolding pass_all_out
get_ready s = if s.needs_prepare then err value_error else do
  d ← pass_all_out s.ready_nodes s.node2info
  ok (
    s.ready_nodes,
    record s { node2info = d; ready_nodes = []; npassedout = s.npassedout + length s.ready_nodes },
  )

unfoldable pub is_active : TopologicalSorter → Result Bool
is_active s =
    if s.needs_prepare
    then err value_error
    else ok (ltb s.nfinished s.npassedout || elim s.ready_nodes [ [] ↦ false | _ ∷ _ ↦ true ])

-- The loop of `done` over the successors of a node: the dict and `_ready_nodes`.
unfoldable pub release : ℕ → Dict ℕ NodeInfo × List ℕ → Result (Dict ℕ NodeInfo × List ℕ)
unfolding decrement is_zero
release successor (d, ready) = elim (get successor d) [
  | none ↦ err key_error
  | some info ↦
      let n = decrement info.npredecessors in
      ok (
        put successor (record info { npredecessors = n }) d,
        if is_zero n then ready ++ successor ∷ [] else ready,
      )
]

unfoldable pub release_all : List ℕ → Dict ℕ NodeInfo × List ℕ → Result (Dict ℕ NodeInfo × List ℕ)
unfolding release
release_all [] acc = ok acc
release_all (successor ∷ successors) acc = do
  acc' ← release successor acc
  release_all successors acc'

-- The body of the loop of `done`.
unfoldable pub done_one : ℕ → TopologicalSorter → Result TopologicalSorter
unfolding release_all is_out
done_one node s = elim (get node s.node2info) [
  | none ↦ err value_error
  | some info ↦
      if is_out info.npredecessors
      then (do
        (d, ready) ←
            release_all info.successors
              (put node (record info { npredecessors = node_done }) s.node2info, s.ready_nodes)
        ok (record s { node2info = d; ready_nodes = ready; nfinished = s.nfinished + 1 }))
      else elim info.npredecessors [
        | pos _ ↦ err value_error
        | negsuc n ↦ if n == 1 then err value_error else err assertion_error
      ]
]

unfoldable pub done_loop : List ℕ → TopologicalSorter → TopologicalSorter × Result (Unit {0})
unfolding done_one
done_loop [] s = (s, ok tt)
done_loop (node ∷ nodes) s = elim (done_one node s) [
  | ok s' ↦ done_loop nodes s'
  | err e ↦ (s, err e)
]

-- `done(*nodes)`: the state that it leaves, and whether it raised.
unfoldable pub done : List ℕ → TopologicalSorter → TopologicalSorter × Result (Unit {0})
unfolding done_loop
done nodes s = if s.needs_prepare then (s, err value_error) else done_loop nodes s
