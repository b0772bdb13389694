-- ===== src/Sorter/Examples.antt =====
-- A sorter of two nodes, and the theorems at it.
use trust_and_safety_demo.Base.{
  ◌≡◌, refl, false, [], ◌∷◌, nat_eq, ok, err, value_error, ap, subst, sym, ◌∙◌,
}
use trust_and_safety_demo.Base.Dict.{get, put}
use trust_and_safety_demo.Sorter.Defs.{
  pos, node_out, TopologicalSorter, empty, add, prepare, get_ready, done_one, raise_count, link_all,
  link, is_done, is_out, get_nodeinfo,
}
use trust_and_safety_demo.Base.{ℕ, All, elem, true, some, if◌then◌else◌}
use trust_and_safety_demo.Sorter.Defs.{
  node_done, release, release_all, decrement, is_zero, pass_out, pass_all_out,
}
use trust_and_safety_demo.Sorter.Run.{get_ready-after_predecessors}
use trust_and_safety_demo.Sorter.Calls.{History, Reach}
use trust_and_safety_demo.Sorter.Balance.{credit, outstanding}
use trust_and_safety_demo.Sorter.Adding.{IsBalanced, status, add-IsBalanced}
use trust_and_safety_demo.Sorter.Covering.{Keeps}
use trust_and_safety_demo.Sorter.Passing.{IsSound, get_ready_total}
use trust_and_safety_demo.Sorter.Finishing.{Finished, is_passed_out, done_one_total}

abbrev one : TopologicalSorter
one = record empty { node2info = (5, record { npredecessors = pos 0; successors = [] }) ∷ [] }

-- Node 6 waits for node 5.
abbrev two : TopologicalSorter
two = record empty {
  node2info =
      (5, record { npredecessors = pos 0; successors = 6 ∷ [] })
      ∷ (6, record { npredecessors = pos 1; successors = [] })
      ∷ [];
}

abbrev prepared : TopologicalSorter
prepared = record two { ready_nodes = 5 ∷ []; needs_prepare = false }

abbrev passing : TopologicalSorter
passing = record {
  node2info =
      (5, record { npredecessors = node_out; successors = 6 ∷ [] })
      ∷ (6, record { npredecessors = pos 1; successors = [] })
      ∷ [];
  ready_nodes = [];
  npassedout = 1;
  nfinished = 0;
  needs_prepare = false;
}

add-one : add 5 [] empty ≡ ok one
unfolding add get put raise_count link_all link is_done get_nodeinfo
add-one = refl

add-two : add 6 (5 ∷ []) one ≡ ok two
unfolding add get put raise_count link_all link is_done get_nodeinfo
add-two = refl

prepare-two : prepare two ≡ prepared
unfolding prepare
prepare-two = refl

get_ready-prepared : get_ready prepared ≡ ok (5 ∷ [], passing)
unfolding get_ready get put
get_ready-prepared = refl

-- A node that is known is not added again, and one that is not out is not done.
add_again : add 5 [] one ≡ err value_error
unfolding add get
add_again = refl

not_out : done_one 6 passing ≡ err value_error
unfolding done_one get
not_out = refl

IsBalanced-empty : IsBalanced empty.node2info
unfolding outstanding credit get
IsBalanced-empty n = refl

IsBalanced-one : IsBalanced one.node2info
IsBalanced-one = add-IsBalanced 5 [] empty one IsBalanced-empty add-one

prepared-IsSound : IsSound prepared
unfolding status get
prepared-IsSound = record {
  balanced = add-IsBalanced 6 (5 ∷ []) one two IsBalanced-one add-two;
  ready = (refl, tt);
}

passing-IsSound : IsSound passing
passing-IsSound =
    let (s, e, sound, keeps, out, none_left) = get_ready_total prepared prepared-IsSound refl in
    subst IsSound
      (ap (λ r. elim r as (λ _. TopologicalSorter) [ ok p ↦ p.1 | err _ ↦ passing ])
        (sym e ∙ get_ready-prepared))
      sound

add-IsBalanced_example : outstanding 6 two.node2info ≡ credit (get 6 two.node2info)
add-IsBalanced_example = add-IsBalanced 6 (5 ∷ []) one two IsBalanced-one add-two 6

get_ready_total_example :
    (s : TopologicalSorter) × (get_ready prepared ≡ ok (5 ∷ [], s))
    × IsSound s
    × Keeps prepared.node2info s.node2info
    × ((n : ℕ)
        → status n s.node2info
          ≡ (if elem n (5 ∷ []) then some node_out else status n prepared.node2info))
    × (s.ready_nodes ≡ [])
get_ready_total_example = get_ready_total prepared prepared-IsSound refl

done_one_total_example :
    (s : TopologicalSorter) × (done_one 5 passing ≡ ok s)
    × IsSound s
    × Finished 5 passing.node2info s.node2info
unfolding is_passed_out get is_out
done_one_total_example = done_one_total 5 passing passing-IsSound refl

abbrev finished : TopologicalSorter
finished = record {
  node2info =
      (5, record { npredecessors = node_done; successors = 6 ∷ [] })
      ∷ (6, record { npredecessors = pos 0; successors = [] })
      ∷ [];
  ready_nodes = 6 ∷ [];
  npassedout = 1;
  nfinished = 1;
  needs_prepare = false;
}

abbrev last : TopologicalSorter
last = record {
  node2info =
      (5, record { npredecessors = node_done; successors = 6 ∷ [] })
      ∷ (6, record { npredecessors = node_out; successors = [] })
      ∷ [];
  ready_nodes = [];
  npassedout = 2;
  nfinished = 1;
  needs_prepare = false;
}

done_one-passing : done_one 5 passing ≡ ok finished
unfolding done_one is_out release_all release get put decrement is_zero
done_one-passing = refl

get_ready-finished : get_ready finished ≡ ok (6 ∷ [], last)
unfolding get_ready pass_all_out pass_out get put
get_ready-finished = refl

abbrev history : History
history = record { edges = (5, 6) ∷ []; finished = 5 ∷ [] }

Reach-finished : Reach finished history
Reach-finished =
    Reach.finishing 5
      (Reach.passing (5 ∷ [])
        (subst (λ s. Reach s (record { edges = (5, 6) ∷ []; finished = [] })) prepare-two
          (Reach.preparing
            (Reach.adding 6 (5 ∷ []) (Reach.adding 5 [] Reach.start add-one) add-two)))
        get_ready-prepared)
      refl done_one-passing

get_ready-after_predecessors_example :
    All (λ (e : ℕ × ℕ). elem e.1 (6 ∷ []) ≡ true → elem e.0 (5 ∷ []) ≡ true) ((5, 6) ∷ [])
get_ready-after_predecessors_example =
    get_ready-after_predecessors finished last history (6 ∷ []) Reach-finished get_ready-finished
