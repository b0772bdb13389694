-- ===== src/Etcd/Atomic.antt =====
-- The update loop writes over just the value that it has read.
use trust_and_safety_demo.Base.{
  ℕ, zero, suc, ◌≡◌, refl, sym, subst, ap, ◌∙◌, ◌⊎◌, inl, inr, Option, none, some, Result, ok,
  Result-cases, arith,
}
use trust_and_safety_demo.Etcd.Defs.{
  key_not_found, compare_failed, node_exists, other_error, Reply, accepted, refused, Condition,
  prev_index, prev_missing, EtcdNode, Client, Ending, returned, Step, ended, again, Fetched,
  fetched, failed, fetch, conclude, write_back, attempt, cas_atomic_update,
}

-- What etcd promises of a key. `current` is the node that a call meets in a world. A conditional `set`
-- is only accepted where its condition holds, and a node that still has the index that `get` gave
-- still has the value that `get` gave.
pub record IsEtcd {W T : Type 0} (client : Client W T) : Type 0 where
  pub current : W → Option (EtcdNode T)
  pub same_index :
      (w : W) (n m : EtcdNode T)
      → (client.get_node w).0 ≡ accepted n
      → current (client.get_node w).1 ≡ some m
      → m.modified_index ≡ n.modified_index
      → m.value ≡ n.value
  pub set_index :
      (t : T) (i : ℕ) (w : W)
      → (client.set_node t (prev_index i) w).0 ≡ accepted tt
      → (n : EtcdNode T) × (current w ≡ some n) × (n.modified_index ≡ i)
  pub set_missing :
      (t : T) (w : W) → (client.set_node t prev_missing w).0 ≡ accepted tt → current w ≡ none

module _ {W T S : Type 0} (client : Client W T) (laws : IsEtcd client) (loads : T → Result S)
    (empty : S) where
  -- The key holds `s`: it is missing and `s` is empty, or its value reads as `s`.
  unfoldable pub Holds : W → S → Type 0
  Holds w s =
      ((laws.current w ≡ none) × (s ≡ empty))
      ⊎ ((n : EtcdNode T) × (laws.current w ≡ some n) × (loads n.value ≡ ok s))

  -- What was fetched, where it is written back.
  fetched-Holds :
      (w : W) (s : S) (condition : Condition) (t : T)
      → fetch loads empty (client.get_node w).0 ≡ fetched s condition
      → (client.set_node t condition (client.get_node w).1).0 ≡ accepted tt
      → Holds (client.get_node w).1 s
  unfolding fetch Holds
  fetched-Holds w s condition t e a = go (client.get_node w).0 refl e
    where
      go :
          (reply : Reply (EtcdNode T))
          → (client.get_node w).0 ≡ reply
          → fetch loads empty reply ≡ fetched s condition
          → Holds (client.get_node w).1 s
      go (accepted n) r f = elim (Result-cases (loads n.value)) [
        | inl (u, l) ↦
            let f' : fetched u (prev_index n.modified_index) ≡ fetched s condition =
              rw (fetch, l) at f in
            let same : u ≡ s = ground arith in
            let cond : prev_index n.modified_index ≡ condition = ground arith in
            let (m, there, index) = laws.set_index t n.modified_index (client.get_node w).1 (
              subst (λ c. (client.set_node t c (client.get_node w).1).0 ≡ accepted tt) (sym cond)
                a) in
            let value = laws.same_index w n m r there index in
            inr (m, there, subst (λ v. loads v ≡ ok s) (sym value) (rw l (ap ok same)))
        | inr (x, l) ↦ absurd (let f' = rw (fetch, l) at f in ground arith)
      ]
      go (refused key_not_found) r f =
          let same : empty ≡ s = ground arith in
          let cond : prev_missing ≡ condition = ground arith in
          inl (
            laws.set_missing t (client.get_node w).1 (
                subst (λ c. (client.set_node t c (client.get_node w).1).0 ≡ accepted tt) (sym cond)
                  a),
            sym same,
          )
      go (refused compare_failed) r f = cc
      go (refused node_exists) r f = cc
      go (refused other_error) r f = cc

  module _ {R : Type 0} (dumps : S → T) (before_state : S → R) (updater : S → Result S) where
    -- The write of an update: where it met the server, what it was computed from, and what it left.
    pub record Written (r : R) (s' : S) (w' : W) : Type 0 where
      pub at : W
      pub old : S
      pub condition : Condition
      pub held : Holds at old
      pub result : r ≡ before_state old
      pub updated : updater old ≡ ok s'
      pub call : client.set_node (dumps s') condition at ≡ (accepted tt, w')

    conclude-returned :
        (s s' : S) (reply : Reply (Unit {0})) (w : W) (r : R) (t : S) (w' : W)
        → conclude client loads dumps empty before_state updater s s' reply w
          ≡ ended (returned r t) w'
        → (reply ≡ accepted tt) × (w ≡ w') × (r ≡ before_state s) × (s' ≡ t)
    unfolding conclude
    conclude-returned s s' (accepted u) w r t w' e =
        (refl, ground arith, ground arith, ground arith)
    conclude-returned s s' (refused compare_failed) w r t w' e = cc
    conclude-returned s s' (refused key_not_found) w r t w' e = cc
    conclude-returned s s' (refused node_exists) w r t w' e = cc
    conclude-returned s s' (refused other_error) w r t w' e = cc

    write_back-Written :
        (w : W) (f : Fetched S) (r : R) (t : S) (w' : W)
        → fetch loads empty (client.get_node w).0 ≡ f
        → write_back client loads dumps empty before_state updater f (client.get_node w).1
          ≡ ended (returned r t) w'
        → Written r t w'
    unfolding write_back
    write_back-Written w (failed x) r t w' f e = cc
    write_back-Written w (fetched s condition) r t w' f e = elim (Result-cases (updater s)) [
      | inl (s', run) ↦
          let (reply, same_w, result, same) =
            conclude-returned s s' (client.set_node (dumps s') condition (client.get_node w).1).0
              (client.set_node (dumps s') condition (client.get_node w).1).1 r t w'
              (rw (write_back, run) at e) in
          record {
            at = (client.get_node w).1;
            old = s;
            condition = condition;
            held = fetched-Holds w s condition (dumps s') f reply;
            result = result;
            updated = run ∙ ap ok same;
            call = rw (← same) (ground (arith, reply, same_w));
          }
      | inr (x, run) ↦ absurd (let e' = rw (write_back, run) at e in cc)
    ]

    -- An update that returns has written over just the object that it was computed from: what it
    -- returns is read from that object, and what it leaves is what the updater makes of it.
    pub cas_atomic_update-Written :
        (fuel : ℕ) (w : W) (r : R) (s' : S) (w' : W)
        → cas_atomic_update client loads dumps empty before_state updater fuel w
          ≡ some (returned r s', w')
        → Written r s' w'
    unfolding cas_atomic_update
    cas_atomic_update-Written zero w r s' w' e = cc
    cas_atomic_update-Written (suc fuel) w r s' w' e =
        go (λ u f. cas_atomic_update-Written fuel u r s' w' f)
          (attempt client loads dumps empty before_state updater w) refl e
      where
        go :
            ((u : W)
              → cas_atomic_update client loads dumps empty before_state updater fuel u
                ≡ some (returned r s', w')
              → Written r s' w')
            → (step : Step R S W) → attempt client loads dumps empty before_state updater w ≡ step
            → ◌≡◌ {A = Option (Ending R S × W)}
                (elim step [
                  | ended ending u ↦ some (ending, u)
                  | again u ↦ cas_atomic_update client loads dumps empty before_state updater fuel u
                ])
                (some (returned r s', w'))
            → Written r s' w'
        go later (ended ending u) a f =
            let same : ending ≡ returned r s' = ground arith in
            let world : u ≡ w' = ground arith in
            write_back-Written w (fetch loads empty (client.get_node w).0) r s' w' refl
              (unfold attempt in a ∙ ground (arith, same, world))
        go later (again u) a f = later u f
