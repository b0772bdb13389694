-- ===== src/Queries/Truth.antt =====
-- The three-valued logic of the filters of Druid, in which null compares as unknown.
use trust_and_safety_demo.Base.{◌≡◌, refl, Bool, true, false, List, [], ◌∷◌}

pub data Truth : Type 0 where
  yes no unknown : Truth

abbrev pub of_bool : Bool → Truth
of_bool true = yes
of_bool false = no

abbrev pub not3 : Truth → Truth
not3 yes = no
not3 no = yes
not3 unknown = unknown

abbrev pub and3 : Truth → Truth → Truth
and3 yes t = t
and3 no t = no
and3 unknown no = no
and3 unknown t = unknown

abbrev pub or3 : Truth → Truth → Truth
or3 yes t = yes
or3 no t = t
or3 unknown yes = yes
or3 unknown t = unknown

abbrev pub all3 {ℓ} : {A : Type ℓ} → (A → Truth) → List A → Truth
all3 p [] = yes
all3 p (x ∷ xs) = and3 (p x) (all3 p xs)

abbrev pub any3 {ℓ} : {A : Type ℓ} → (A → Truth) → List A → Truth
any3 p [] = no
any3 p (x ∷ xs) = or3 (p x) (any3 p xs)

pub and3_yes : (t : Truth) → and3 t yes ≡ t
and3_yes yes = refl
and3_yes no = refl
and3_yes unknown = refl
