-- ===== src/Prelude/Switch.antt =====
-- Go's `switch` on a string, and membership of a name in a list.
use Prim.Native.String.{String}
use mathlib.Core.Path.{◌≡◌, refl}
use mathlib.Core.Bool.{Bool, true, false, ◌&&◌, ◌||◌}
use mathlib.Core.List.{List, [], ◌∷◌, ◌++◌}
use native.Mathlib.Omega.{arith}
use xtaci_kcptun.Prelude.Tests.{if◌then◌else◌, Bool-cases}
use mathlib.Core.Logic.{inl, inr}
use xtaci_kcptun.Prelude.Dicts.{Eq, string_eq}

-- The first case whose label equals the value, else `default`.
unfoldable pub switch {ℓ} : {A : Type ℓ} → String → List (String × A) → A → A
switch x [] default = default
switch x ((label, a) ∷ cases) default = if string_eq.beq label x then a else switch x cases default

module _ {A : Type 0} ⦃e : Eq A⦄ where
  unfoldable pub contains : List A → A → Bool
  contains [] x = false
  contains (y ∷ ys) x = e.beq y x || contains ys x

  unfoldable pub all_in : List A → List A → Bool
  unfolding contains
  all_in [] ys = true
  all_in (x ∷ xs) ys = contains ys x && all_in xs ys

  pub contains-all_in :
      (xs ys : List A) (x : A) → all_in xs ys ≡ true → contains xs x ≡ true → contains ys x ≡ true
  unfolding contains all_in
  contains-all_in [] ys x h m = ground arith
  contains-all_in (y ∷ xs) ys x h m = ground (arith, e.beq_iff y x, contains-all_in xs ys x)

abbrev pub labels {ℓ} : {A : Type ℓ} → List (String × A) → List String
labels [] = []
labels ((l, a) ∷ cs) = l ∷ labels cs

-- A value that no label equals takes the default.
pub switch_default {ℓ} :
    {A : Type ℓ} (x : String) (cs : List (String × A)) (d : A)
    → contains (labels cs) x ≡ false
    → switch x cs d ≡ d
unfolding switch contains
switch_default x [] d h = refl
switch_default x ((l, a) ∷ cs) d h = ground (arith, switch_default x cs d)

-- Where a label equals the value the default does not matter.
pub switch_hit {ℓ} :
    {A : Type ℓ} (x : String) (cs : List (String × A)) (d d' : A)
    → contains (labels cs) x ≡ true
    → switch x cs d ≡ switch x cs d'
unfolding switch contains
switch_hit x [] d d' h = ground arith
switch_hit x ((l, a) ∷ cs) d d' h = ground (arith, switch_hit x cs d d')

-- Labels whose case is the default's value change nothing.
pub switch-append {ℓ} :
    {A : Type ℓ} (x l : String) (cs : List (String × A)) (d a : A)
    → switch x (cs ++ ((l, a) ∷ [])) d ≡ switch x cs (if string_eq.beq l x then a else d)
unfolding switch
switch-append x l [] d a = refl
switch-append x l ((m, b) ∷ cs) d a = ground (arith, switch-append x l cs d a)

abbrev pub map_cases {ℓ κ} :
    {A : Type ℓ} {B : Type κ} → (A → B) → List (String × A) → List (String × B)
map_cases f [] = []
map_cases f ((l, a) ∷ cs) = (l, f a) ∷ map_cases f cs

-- A function of the chosen value is the choice of the function's values.
pub switch-map {ℓ κ} :
    {A : Type ℓ} {B : Type κ} (f : A → B) (x : String) (cs : List (String × A)) (d : A)
    → f (switch x cs d) ≡ switch x (map_cases f cs) (f d)
unfolding switch
switch-map f x [] d = refl
switch-map f x ((l, a) ∷ cs) d = elim (Bool-cases (string_eq.beq l x)) [
  | inl hit ↦ rw hit
  | inr miss ↦ rw miss (switch-map f x cs d)
]
