-- ===== src/Base/Dict.antt =====
-- Python's `dict`: an association list in insertion order, whose keys are distinct.
use mathlib.Core.Path.{◌≡◌, refl, subst}
use mathlib.Core.Logic.{◌≢◌, inl, inr}
use mathlib.Core.Bool.{Bool, true, false}
use mathlib.Core.Option.{Option, none, some}
use mathlib.Core.List.{List, [], ◌∷◌, ◌++◌, map}
use native.Mathlib.Omega.{arith}
use trust_and_safety_demo.Base.Tests.{if◌then◌else◌, Eq, ◌==◌, is_some, Bool-cases, beq_refl}
use trust_and_safety_demo.Base.Lists.{elem, elem-append, All, IsDistinct, IsDistinct-snoc}

abbrev pub Dict {ℓ κ} : Type ℓ → Type κ → Type (ℓ ⊔ κ)
Dict K V = List (K × V)

module _ {ℓ κ} {K : Type ℓ} {V : Type κ} ⦃e : Eq K⦄ where
  -- `d.get(k)`
  unfoldable pub get : K → Dict K V → Option V
  get k [] = none
  get k ((j, v) ∷ d) = if j == k then some v else get k d

  -- `d[k] = v`: a key that is there keeps its place, a new one goes to the end
  unfoldable pub put : K → V → Dict K V → Dict K V
  put k v [] = (k, v) ∷ []
  put k v ((j, w) ∷ d) = if j == k then (j, v) ∷ d else (j, w) ∷ put k v d

  -- `del d[k]`
  unfoldable pub delete : K → Dict K V → Dict K V
  delete k [] = []
  delete k ((j, w) ∷ d) = if j == k then d else (j, w) ∷ delete k d

  -- `d.keys()`
  abbrev pub keys : Dict K V → List K
  keys d = map (λ p. p.0) d

  -- `k in d`
  abbrev pub contains : K → Dict K V → Bool
  contains k d = is_some (get k d)

  pub get-ne-nil : (k : K) (d : Dict K V) {v : V} → get k d ≡ some v → d ≢ []
  unfolding get
  get-ne-nil k [] h n = cc
  get-ne-nil k ((i, w) ∷ d) h n = cc

  pub get-put :
      (k j : K) (v : V) (d : Dict K V) → get j (put k v d) ≡ (if k == j then some v else get j d)
  unfolding get put
  get-put k j v [] = refl
  get-put k j v ((i, w) ∷ d) =
      ground (arith, e.beq_iff k j, e.beq_iff i k, e.beq_iff i j, get-put k j v d)

  pub keys-put :
      (k : K) (v : V) (d : Dict K V)
      → keys (put k v d) ≡ (if contains k d then keys d else keys d ++ k ∷ [])
  unfolding get put
  keys-put k v [] = refl
  keys-put k v ((i, w) ∷ d) = ground (arith, keys-put k v d)

  pub contains-elem : (k : K) (d : Dict K V) → contains k d ≡ elem k (keys d)
  unfolding get
  contains-elem k [] = refl
  contains-elem k ((i, w) ∷ d) = ground (arith, contains-elem k d)

  -- A predicate on the values, read through `get` and kept by `put`.
  module _ {μ} (P : V → Type μ) where
    pub All-get : (k : K) {v : V} (d : Dict K V) → All (λ p. P p.1) d → get k d ≡ some v → P v
    unfolding get
    All-get k [] h g = cc
    All-get k {v} ((i, w) ∷ d) h g = elim (Bool-cases (i == k)) [
      | inl same ↦ let g' : some w ≡ some v = rw same at g in subst P (cc) h.0
      | inr other ↦ All-get k d h.1 (rw other at g)
    ]

    pub All-put :
        (k : K) (v : V) (d : Dict K V) → P v → All (λ p. P p.1) d → All (λ p. P p.1) (put k v d)
    unfolding put
    All-put k v [] pv h = (pv, tt)
    All-put k v ((i, w) ∷ d) pv h = elim (Bool-cases (i == k)) [
      | inl same ↦ rw same (pv, h.1)
      | inr other ↦ rw other (h.0, All-put k v d pv h.1)
    ]

  pub put-ne-nil : (k : K) (v : V) (d : Dict K V) → put k v d ≢ []
  unfolding put
  put-ne-nil k v [] h = cc
  put-ne-nil k v ((i, w) ∷ d) h = ground arith

  pub IsDistinct-keys-put :
      (k : K) (v : V) (d : Dict K V) → IsDistinct (keys d) → IsDistinct (keys (put k v d))
  IsDistinct-keys-put k v d h = elim (Bool-cases (contains k d)) [
    | inl old ↦ rw (keys-put, old) h
    | inr new ↦ rw (keys-put, new) (IsDistinct-snoc (keys d) k h (rw contains-elem at new))
  ]

  pub get-none : (k : K) (d : Dict K V) → elem k (keys d) ≡ false → get k d ≡ none
  get-none k d h = ground (arith, contains-elem k d)

  contains-weaken :
      (k : K) (v : V) (d : Dict K V) (ks : List K)
      → All (λ x. contains x d ≡ true) ks
      → All (λ x. contains x ((k, v) ∷ d) ≡ true) ks
  unfolding get
  contains-weaken k v d [] h = tt
  contains-weaken k v d (x ∷ ks) h = (ground (arith, h.0), contains-weaken k v d ks h.1)

  pub All-contains : (d : Dict K V) → All (λ x. contains x d ≡ true) (keys d)
  unfolding get
  All-contains [] = tt
  All-contains ((k, v) ∷ d) = (rw beq_refl refl, contains-weaken k v d (keys d) (All-contains d))

  -- A key that is new goes to the end.
  pub put-new :
      (k : K) (v : V) (d : Dict K V) → elem k (keys d) ≡ false → put k v d ≡ d ++ (k, v) ∷ []
  unfolding put
  put-new k v [] h = refl
  put-new k v ((j, w) ∷ d) h = ground (arith, put-new k v d)

  -- Writing what is there changes nothing.
  pub put-same : (k : K) (v : V) (d : Dict K V) → get k d ≡ some v → put k v d ≡ d
  unfolding get put
  put-same k v [] h = cc
  put-same k v ((j, w) ∷ d) h = ground (arith, put-same k v d)

  keys-append : (c d : Dict K V) → keys (c ++ d) ≡ keys c ++ keys d
  keys-append [] d = refl
  keys-append ((k, v) ∷ c) d = rw (keys-append c d) refl

  -- The entries of a dict are new to those written before them.
  pub still_new :
      (k : K) (v : V) (d os : Dict K V)
      → elem k (keys os) ≡ false
      → All (λ o. elem o.0 (keys d) ≡ false) os
      → All (λ o. elem o.0 (keys (d ++ (k, v) ∷ [])) ≡ false) os
  still_new k v d [] h a = tt
  still_new k v d ((j, w) ∷ os) h a = (
    rw (keys-append d ((k, v) ∷ []), elem-append j (keys d) (k ∷ []))
        (ground (arith, a.0, e.beq_iff j k, e.beq_iff k j)),
    still_new k v d os (ground arith) a.1,
  )

  pub all_new : (os : Dict K V) → All (λ o. elem o.0 (keys []) ≡ false) os
  all_new [] = tt
  all_new (o ∷ os) = (refl, all_new os)
