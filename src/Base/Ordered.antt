-- ===== src/Base/Ordered.antt =====
-- Lists in which each element comes once and after those that it depends on.
use Prim.Native.Nat.{ℕ, suc, ◌+◌, ◌≤◌}
use mathlib.Core.Path.{◌≡◌, refl, ap, subst}
use mathlib.Core.Bool.{true, false}
use mathlib.Core.Logic.{inl, inr}
use native.Mathlib.Omega.{arith}
use mathlib.Core.List.{List, [], ◌∷◌, ◌++◌, map}
use trust_and_safety_demo.Base.Tests.{nat_eq, ◌==◌, if◌then◌else◌, Bool-cases}
use trust_and_safety_demo.Base.Lists.{elem, All, length}

-- The numbers of `ids` are among those of `seen`.
abbrev pub AreAmong : List ℕ → List ℕ → Type 0
AreAmong ids seen = All (λ i. elem i seen ≡ true) ids

append_nil : (xs : List ℕ) → xs ++ [] ≡ xs
append_nil [] = refl
append_nil (x ∷ xs) = ap (λ ys. x ∷ ys) (append_nil xs)

append-cons : (xs : List ℕ) (y : ℕ) (zs : List ℕ) → xs ++ y ∷ zs ≡ (xs ++ y ∷ []) ++ zs
append-cons [] y zs = refl
append-cons (x ∷ xs) y zs = ap (λ ws. x ∷ ws) (append-cons xs y zs)

module _ {A : Type 0} (id_of : A → ℕ) (needs : A → List ℕ) where
  -- No element stands twice or is in `before`, and each comes after what it needs.
  abbrev pub InOrder : List ℕ → List A → Type 0
  InOrder before [] = Unit
  InOrder before (c ∷ cs) =
      (elem (id_of c) before ≡ false)
      × AreAmong (needs c) before
      × InOrder (before ++ id_of c ∷ []) cs

  pub InOrder-snoc :
      (before : List ℕ) (cs : List A) (c : A)
      → InOrder before cs
      → elem (id_of c) (before ++ map id_of cs) ≡ false
      → AreAmong (needs c) (before ++ map id_of cs)
      → InOrder before (cs ++ c ∷ [])
  InOrder-snoc before [] c h n a =
      let e = append_nil before in (rw e at n, subst (AreAmong (needs c)) e a, tt)
  InOrder-snoc before (x ∷ cs) c h n a =
      let e = append-cons before (id_of x) (map id_of cs) in
      (
        h.0,
        h.1,
        InOrder-snoc (before ++ id_of x ∷ []) cs c h.2 (subst (λ l. elem (id_of c) l ≡ false) e n)
            (subst (AreAmong (needs c)) e a),
      )

-- How many of the numbers are not among `finished`.
abbrev pub unfinished : List ℕ → List ℕ → ℕ
unfinished [] finished = 0
unfinished (u ∷ us) finished = (if elem u finished then 0 else 1) + unfinished us finished

unfinished-le :
    (us finished : List ℕ) (k : ℕ) → unfinished us (k ∷ finished) ≤ unfinished us finished
unfinished-le [] finished k = omega arith
unfinished-le (u ∷ us) finished k = ground (arith, unfinished-le us finished k)

pub unfinished-lt :
    (us finished : List ℕ) (k : ℕ)
    → elem k us ≡ true
    → elem k finished ≡ false
    → suc (unfinished us (k ∷ finished)) ≤ unfinished us finished
unfinished-lt [] finished k h n = cc
unfinished-lt (u ∷ us) finished k h n = elim (Bool-cases (u == k)) [
  | inl same ↦ let eq : u ≡ k = ground arith in ground (arith, unfinished-le us finished k, n, eq)
  | inr other ↦ ground (arith, unfinished-lt us finished k (rw other at h) n)
]

pub unfinished-imp :
    (us finished more : List ℕ)
    → ((k : ℕ) → elem k finished ≡ true → elem k more ≡ true)
    → unfinished us more ≤ unfinished us finished
unfinished-imp [] finished more f = omega arith
unfinished-imp (u ∷ us) finished more f = ground (arith, f u, unfinished-imp us finished more f)

pub unfinished-length : (us finished : List ℕ) → unfinished us finished ≤ length us
unfinished-length [] finished = omega arith
unfinished-length (u ∷ us) finished = ground (arith, unfinished-length us finished)
