-- ===== src/Sorter/Settling.antt =====
-- What the loop of `done` over the successors keeps: which nodes are out, and that just the nodes
-- that wait for nothing are queued.
use trust_and_safety_demo.Base.{
  ℕ, suc, ◌<◌, ◌≡◌, inl, inr, Bool, true, false, some, List, [], ◌∷◌, ◌++◌, arith, if◌then◌else◌,
  ◌==◌, nat_eq, refl, sym, subst, Bool-cases, ok, All, elem, elem-append, IsDistinct,
  IsDistinct-snoc,
}
use trust_and_safety_demo.Base.Dict.{Dict, get, put, get-put, contains}
use trust_and_safety_demo.Sorter.Defs.{
  ℤ, pos, negsuc, node_out, NodeInfo, is_zero, is_out, release_all,
}
use trust_and_safety_demo.Sorter.Adding.{status, status-put}
use trust_and_safety_demo.Sorter.Releasing.{AreReady, ready_status, Owing, Paid, release_total}
use trust_and_safety_demo.Sorter.Entries.{AllAt, AllAt-put}

-- A count of predecessors, `_NODE_OUT` or `_NODE_DONE`.
unfoldable pub is_proper : ℤ → Bool
is_proper (negsuc (suc (suc n))) = false
is_proper _ = true

-- A node is known, its successors are younger, and it is among those that are out if it is out.
pub record IsEntry (us outs : List ℕ) (p : ℕ) (i : NodeInfo) : Type 0 where
  pub known : elem p us ≡ true
  pub proper : is_proper i.npredecessors ≡ true
  pub ascending : All (λ n. p < n) i.successors
  pub out : is_out i.npredecessors ≡ true → elem p outs ≡ true

-- The nodes that wait for nothing are queued, each once.
pub record IsQueued (d : Dict ℕ NodeInfo) (ready : List ℕ) : Type 0 where
  pub waiting : (n : ℕ) → status n d ≡ some (pos 0) → elem n ready ≡ true
  pub distinct : IsDistinct ready

pub record Settled (us outs : List ℕ) (d : Dict ℕ NodeInfo) (queue : List ℕ) : Type 0 where
  pub ready : AreReady d queue
  pub queued : IsQueued d queue
  pub entries : AllAt (IsEntry us outs) d
  pub out : All (λ n. status n d ≡ some node_out) outs

pub status-found :
    (k : ℕ) (d : Dict ℕ NodeInfo) (i : NodeInfo)
    → get k d ≡ some i
    → status k d ≡ some i.npredecessors
unfolding status
status-found k d i e = rw (status, e) refl

-- The nodes that are out are not paid.
module _ (k : ℕ) (d : Dict ℕ NodeInfo) (i j : NodeInfo) (n : ℕ) (found : get k d ≡ some i)
    (waited : i.npredecessors ≡ pos n) where
  pub still_out :
      (outs : List ℕ)
      → All (λ m. status m d ≡ some node_out) outs
      → All (λ m. status m (put k j d) ≡ some node_out) outs
  still_out [] h = tt
  still_out (m ∷ outs) h = (
    elim (Bool-cases (k == m)) [
      | inl same ↦
          let eq : k ≡ m = ground arith in
          let there : status k d ≡ some node_out = rw eq h.0 in
          absurd (ground (arith, status-found k d i found, there, waited))
      | inr other ↦ rw (status-put, other) h.0
    ],
    still_out outs h.1,
  )

module _ (x left : ℕ) (d : Dict ℕ NodeInfo) (ready : List ℕ) (i : NodeInfo)
    (found : get x d ≡ some i) (waited : i.npredecessors ≡ pos (suc left)) where
  paid_queue :
      AreReady d ready
      → IsQueued d ready
      → IsQueued
          (put x (record i { npredecessors = pos left }) d)
          (if is_zero (pos left) then ready ++ x ∷ [] else ready)
  unfolding is_zero
  paid_queue r q = record {
    waiting = λ n h. elim (Bool-cases (x == n)) [
      | inl same ↦
          let h' : some (pos left) ≡ some (pos 0) = rw (status-put, same) at h in
          let gone : left ≡ 0 = ground arith in
          rw gone (rw (elem-append n ready (x ∷ []), same) (ground arith))
      | inr other ↦
          let old : elem n ready ≡ true = q.waiting n (rw (status-put, other) at h) in
          elim (Bool-cases (is_zero (pos left))) [
            | inl gone ↦ rw gone (rw (elem-append n ready (x ∷ []), old) refl)
            | inr more ↦ rw more old
          ]
    ];
    distinct = elim (Bool-cases (is_zero (pos left))) [
      | inl gone ↦ rw gone (
          IsDistinct-snoc ready x q.distinct (elim (Bool-cases (elem x ready)) [
            | inl there ↦
                absurd
                  (ground (arith, ready_status d ready r x there, status-found x d i found, waited))
            | inr new ↦ new
          ]))
      | inr more ↦ rw more q.distinct
    ];
  }

release-Settled :
    (us outs : List ℕ) (x : ℕ) (rest : List ℕ) (d : Dict ℕ NodeInfo) (ready : List ℕ)
    → Settled us outs d ready
    → (acc : Dict ℕ NodeInfo × List ℕ) → Paid x rest (d, ready) acc
    → Settled us outs acc.0 acc.1
unfolding AllAt is_out is_proper
release-Settled us outs x rest d ready s acc p =
    let old : IsEntry us outs x p.info = s.entries x p.info p.found in
    let j : NodeInfo = record p.info { npredecessors = pos p.left } in
    record {
      ready = p.ready s.ready;
      queued = subst (IsQueued acc.0) (sym p.queued) (
          subst (λ e. IsQueued e (if is_zero (pos p.left) then ready ++ x ∷ [] else ready))
            (sym p.written) (paid_queue x p.left d ready p.info p.found p.waited s.ready s.queued));
      entries = subst (AllAt (IsEntry us outs)) (sym p.written) (
          AllAt-put (IsEntry us outs) x j d s.entries (record {
            known = old.known;
            proper = refl;
            ascending = old.ascending;
            out = λ e. cc;
          }));
      out =
          subst (λ e. All (λ m. status m e ≡ some node_out) outs) (sym p.written)
            (still_out x d p.info j (suc p.left) p.found p.waited outs s.out);
    }

pub release_all-Settled :
    (us outs rest : List ℕ) (d : Dict ℕ NodeInfo) (ready : List ℕ)
    → Owing rest d
    → Settled us outs d ready
    → (acc : Dict ℕ NodeInfo × List ℕ) → release_all rest (d, ready) ≡ ok acc
    → Settled us outs acc.0 acc.1
unfolding release_all
release_all-Settled us outs [] d ready o s acc e =
    let same : (d, ready) ≡ acc = ground arith in
    subst (λ (a : Dict ℕ NodeInfo × List ℕ). Settled us outs a.0 a.1) same s
release_all-Settled us outs (x ∷ rest) d ready o s acc e =
    let (mid, run, p) = release_total x rest d ready o in
    release_all-Settled us outs rest mid.0 mid.1 p.owing
      (release-Settled us outs x rest d ready s mid p) acc (rw run at e)

-- Writing a node that there is adds none.
pub contains-put :
    (n k : ℕ) (i j : NodeInfo) (d : Dict ℕ NodeInfo)
    → get k d ≡ some i
    → contains n (put k j d) ≡ contains n d
contains-put n k i j d e = elim (Bool-cases (k == n)) [
  | inl same ↦
      let eq : k ≡ n = ground arith in
      let e' : get n d ≡ some i = rw (← eq) e in rw (get-put, same, e') refl
  | inr other ↦ rw (get-put, other) refl
]
