-- ===== src/Etcd/Rounds.antt =====
-- The update loop ends when the others let it (`cas_atomic_update`).
use trust_and_safety_demo.Base.{
  ℕ, zero, suc, ◌<◌, ◌≡◌, refl, subst, inl, inr, true, some, Result, Result-cases, is_some, arith,
}
use trust_and_safety_demo.Etcd.Defs.{
  key_not_found, compare_failed, node_exists, other_error, Reply, accepted, refused, Condition,
  prev_index, prev_missing, EtcdNode, Client, Ending, Step, ended, again, Fetched, fetched, failed,
  fetch, conclude, write_back, attempt, cas_atomic_update,
}

-- The condition of the write that follows an answer to `get`.
unfoldable pub condition_of : {T : Type 0} → Reply (EtcdNode T) → Condition
condition_of (accepted n) = prev_index n.modified_index
condition_of (refused e) = prev_missing

fetch-condition :
    {T S : Type 0} (loads : T → Result S) (empty : S) (reply : Reply (EtcdNode T)) (s : S)
    (condition : Condition)
    → fetch loads empty reply ≡ fetched s condition
    → condition_of reply ≡ condition
unfolding fetch condition_of
fetch-condition loads empty (accepted n) s condition e = elim (Result-cases (loads n.value)) [
  | inl (u, l) ↦ let e' = rw (fetch, l) at e in ground arith
  | inr (x, l) ↦ absurd (let e' = rw (fetch, l) at e in ground arith)
]
fetch-condition loads empty (refused key_not_found) s condition e = ground arith
fetch-condition loads empty (refused compare_failed) s condition e = cc
fetch-condition loads empty (refused node_exists) s condition e = cc
fetch-condition loads empty (refused other_error) s condition e = cc

-- How many writes of others a client may still meet between its own `get` and `set`: a `set` whose
-- comparison fails has met one.
pub record IsQuieting {W T : Type 0} (client : Client W T) (conflicts : W → ℕ) : Type 0 where
  pub refusing :
      (t : T) (w : W)
      → (client.set_node t (condition_of (client.get_node w).0) (client.get_node w).1).0
        ≡ refused compare_failed
      → conflicts (
          client.sleep
            (client.set_node t (condition_of (client.get_node w).0) (client.get_node w).1).1)
        < conflicts w

module _ {W T R S : Type 0} (client : Client W T) (loads : T → Result S) (dumps : S → T) (empty : S)
    (before_state : S → R) (updater : S → Result S) (conflicts : W → ℕ)
    (quieting : IsQuieting client conflicts) where
  conclude-again :
      (s s' : S) (reply : Reply (Unit {0})) (w u : W)
      → conclude client loads dumps empty before_state updater s s' reply w ≡ again u
      → (reply ≡ refused compare_failed) × (client.sleep w ≡ u)
  unfolding conclude
  conclude-again s s' (accepted x) w u e = cc
  conclude-again s s' (refused compare_failed) w u e = (refl, ground arith)
  conclude-again s s' (refused key_not_found) w u e = cc
  conclude-again s s' (refused node_exists) w u e = cc
  conclude-again s s' (refused other_error) w u e = cc

  write_back-again :
      (f : Fetched S) (w u : W)
      → fetch loads empty (client.get_node w).0 ≡ f
      → write_back client loads dumps empty before_state updater f (client.get_node w).1 ≡ again u
      → conflicts u < conflicts w
  unfolding write_back
  write_back-again (failed x) w u f e = cc
  write_back-again (fetched s condition) w u f e = elim (Result-cases (updater s)) [
    | inl (s', run) ↦
        let w1 = (client.get_node w).1 in
        let (reply, slept) =
          conclude-again s s' (client.set_node (dumps s') condition w1).0
            (client.set_node (dumps s') condition w1).1 u (rw (write_back, run) at e) in
        let same = fetch-condition loads empty (client.get_node w).0 s condition f in
        subst (λ v. conflicts v < conflicts w) slept
          (subst
            (λ c.
              (client.set_node (dumps s') c w1).0 ≡ refused compare_failed
              → conflicts (client.sleep (client.set_node (dumps s') c w1).1) < conflicts w)
            same (quieting.refusing (dumps s') w) reply)
    | inr (x, run) ↦ absurd (let e' = rw (write_back, run) at e in cc)
  ]

  attempt-again :
      (w u : W)
      → attempt client loads dumps empty before_state updater w ≡ again u
      → conflicts u < conflicts w
  unfolding attempt
  attempt-again w u e = write_back-again (fetch loads empty (client.get_node w).0) w u refl e

  -- The loop comes to an end, be it an exception, if the writes of others that it may still meet are
  -- fewer than the rounds that it is given.
  pub cas_atomic_update-ends :
      (fuel : ℕ) (w : W)
      → conflicts w < fuel
      → is_some (cas_atomic_update client loads dumps empty before_state updater fuel w) ≡ true
  unfolding cas_atomic_update
  cas_atomic_update-ends zero w less = absurd (omega (arith, less))
  cas_atomic_update-ends (suc fuel) w less =
      go (λ u f. cas_atomic_update-ends fuel u (omega (arith, f, less)))
        (attempt client loads dumps empty before_state updater w) refl
    where
      go :
          ((u : W)
            → conflicts u < conflicts w
            → is_some (cas_atomic_update client loads dumps empty before_state updater fuel u)
              ≡ true)
          → (step : Step R S W) → attempt client loads dumps empty before_state updater w ≡ step
          → is_some {A = Ending R S × W} (elim step [
            | ended ending u ↦ some (ending, u)
            | again u ↦ cas_atomic_update client loads dumps empty before_state updater fuel u
          ])
            ≡ true
      go later (ended ending u) a = refl
      go later (again u) a = later u (attempt-again w u a)
