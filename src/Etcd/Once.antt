-- ===== src/Etcd/Once.antt =====
-- How often the update loop writes (`_cas_atomic_update`).
use trust_and_safety_demo.Base.{ℕ, suc, ◌≡◌, Result}
use trust_and_safety_demo.Etcd.Defs.{
  EtcdError, accepted, refused, Condition, Client, Ending, returned, raised, Step, ended, again,
}
use trust_and_safety_demo.Etcd.Atomic.{IsEtcd, Written}

-- How many calls of `set` of this client the server has accepted: a world counts them.
pub record CountsWrites {W T : Type 0} (client : Client W T) (writes : W → ℕ) : Type 0 where
  pub reading : (w : W) → writes (client.get_node w).1 ≡ writes w
  pub sleeping : (w : W) → writes (client.sleep w) ≡ writes w
  pub accepting :
      (t : T) (c : Condition) (w : W)
      → (client.set_node t c w).0 ≡ accepted tt
      → writes (client.set_node t c w).1 ≡ suc (writes w)
  pub refusing :
      (t : T) (c : Condition) (w : W) (e : EtcdError)
      → (client.set_node t c w).0 ≡ refused e
      → writes (client.set_node t c w).1 ≡ writes w

-- The count after an ending, from the count before the update.
abbrev pub count_after : {R S : Type 0} → Ending R S → ℕ → ℕ
count_after (returned r s) n = suc n
count_after (raised e) n = n

abbrev pub count_after_step : {R S W : Type 0} → Step R S W → ℕ → ℕ
count_after_step (ended ending w) n = count_after ending n
count_after_step (again w) n = n

abbrev world_of : {R S W : Type 0} → Step R S W → W
world_of (ended ending w) = w
world_of (again w) = w

module _ {W T S R : Type 0} (client : Client W T) (laws : IsEtcd client) (writes : W → ℕ)
    (counts : CountsWrites client writes) (loads : T → Result S) (empty : S) (dumps : S → T)
    (before_state : S → R) (updater : S → Result S) where
  -- What an ending leaves: one that returns has written over what it was computed from.
  abbrev pub Leaves : Ending R S → W → Type 0
  Leaves (returned r s) w = Written client laws loads empty dumps before_state updater r s w
  Leaves (raised e) w = Unit
