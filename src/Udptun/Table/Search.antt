-- ===== src/Udptun/Table/Search.antt =====
-- The search for a free flow id: what it returns, and that it ends.
use xtaci_kcptun.Prelude.{
  ℕ, zero, suc, ◌+◌, ◌%◌, ◌^◌, ◌≤◌, ◌<◌, ◌≡◌, ◌≢◌, List, [], ◌∷◌, none, some, arith, ◌==◌, not,
  ◌||◌, refl, ap, if◌then◌else◌, Dict, lookup, length, Bool, true, false, Bool-cases, Option-cases,
  inl, inr, keys, nat_eq,
}
use xtaci_kcptun.Prelude.Switch.{contains}
use xtaci_kcptun.Udptun.Table.{next_free, tries, is_nil}

-- The id that the search returns is free, and no keepalive.
pub next_free_lem :
    (fuel next : ℕ) (m : Dict ℕ ℕ) {id : ℕ}
    → next_free fuel next m ≡ some id
    → (0 < id) × (id < 2 ^ 32) × (lookup id m ≡ none)
unfolding next_free
next_free_lem zero next m e = ground arith
next_free_lem (suc fuel) next m {id} e =
    ground (arith, next_free_lem fuel ((next + 1) % 2 ^ 32) m {id = id})

without : ℕ → List ℕ → List ℕ
without c [] = []
without c (x ∷ xs) = if x == c then without c xs else x ∷ without c xs

contains-without :
    (c y : ℕ) (xs : List ℕ) → c ≢ y → contains (without c xs) y ≡ false → contains xs y ≡ false
unfolding contains without
contains-without c y [] h n = refl
contains-without c y (x ∷ xs) h n = ground (arith, contains-without c y xs h)

length-without-le : (c : ℕ) (xs : List ℕ) → length (without c xs) ≤ length xs
unfolding without
length-without-le c [] = omega arith
length-without-le c (x ∷ xs) = ground (arith, length-without-le c xs)

length-without : (c : ℕ) (xs : List ℕ) → contains xs c ≡ true → length (without c xs) < length xs
unfolding contains without
length-without c [] h = ground arith
length-without c (x ∷ xs) h = ground (arith, length-without c xs, length-without-le c xs)

-- Of more successors than `xs` has entries, one is not in `xs`.
record Unused (next n : ℕ) (xs : List ℕ) : Type 0 where
  step : ℕ
  positive : 0 < step
  bounded : step ≤ n
  unused : contains xs ((next + step) % 2 ^ 32) ≡ false

two_steps : (next s : ℕ) → (next + suc s) % 2 ^ 32 ≡ ((next + 1) % 2 ^ 32 + s) % 2 ^ 32
two_steps next s = omega arith

some-Unused :
    (n next : ℕ) (xs : List ℕ) → length xs < n → n ≤ 2 ^ 32 → next < 2 ^ 32 → Unused next n xs
some-Unused zero next xs l u h = absurd (omega arith)
some-Unused (suc n) next xs l u h = elim (Bool-cases (contains xs ((next + 1) % 2 ^ 32))) [
  | inr free ↦ record { step = 1; positive = omega arith; bounded = omega arith; unused = free }
  | inl taken ↦ later (
      some-Unused n ((next + 1) % 2 ^ 32) (without ((next + 1) % 2 ^ 32) xs)
        (omega (arith, length-without _ xs taken)) (omega arith) (omega arith))
]
  where
    later :
        Unused ((next + 1) % 2 ^ 32) n (without ((next + 1) % 2 ^ 32) xs) → Unused next (suc n) xs
    later r = record {
      step = suc r.step;
      positive = omega arith;
      bounded = omega (arith, r.bounded);
      unused = rw (two_steps next r.step) (
          contains-without ((next + 1) % 2 ^ 32) _ xs (omega (arith, r.positive, r.bounded))
            r.unused);
    }

-- An id that the loop skips.
abbrev is_busy : Dict ℕ ℕ → ℕ → Bool
is_busy m id = id == 0 || not (is_nil (lookup id m))

contains-keys : (m : Dict ℕ ℕ) (id : ℕ) → contains (keys m) id ≡ false → lookup id m ≡ none
unfolding contains lookup
contains-keys [] id h = refl
contains-keys ((k, v) ∷ m) id h = ground (arith, contains-keys m id)

length-keys : (m : Dict ℕ ℕ) → length (keys m) ≡ length m
length-keys [] = refl
length-keys ((k, v) ∷ m) = ap suc (length-keys m)

not_busy : (m : Dict ℕ ℕ) (id : ℕ) → contains (0 ∷ keys m) id ≡ false → is_busy m id ≡ false
unfolding contains
not_busy m id h = ground (arith, contains-keys m id)

-- A search that fails has found every candidate busy.
all_busy :
    (fuel next : ℕ) (m : Dict ℕ ℕ) (s : ℕ)
    → next_free fuel next m ≡ none
    → 0 < s
    → s ≤ fuel
    → is_busy m ((next + s) % 2 ^ 32) ≡ true
unfolding next_free
all_busy zero next m s e p b = absurd (omega arith)
all_busy (suc fuel) next m zero e p b = absurd (omega arith)
all_busy (suc fuel) next m (suc zero) e p b = ground arith
all_busy (suc fuel) next m (suc (suc s)) e p b =
    rw (two_steps next (suc s))
      (all_busy fuel ((next + 1) % 2 ^ 32) m (suc s) (ground arith) (omega arith) (omega arith))

-- While fewer than 2^32 - 1 flows are live the search ends with a free id.
pub next_free_total :
    (next : ℕ) (m : Dict ℕ ℕ)
    → next < 2 ^ 32
    → tries m ≤ 2 ^ 32
    → (id : ℕ) × (next_free (tries m) next m ≡ some id)
next_free_total next m h room = elim (Option-cases (next_free (tries m) next m)) [
  | inr found ↦ found
  | inl stuck ↦
      absurd (
        clash (some-Unused (tries m) next (0 ∷ keys m) (omega (arith, length-keys m)) room h) stuck)
]
  where
    clash : Unused next (tries m) (0 ∷ keys m) → next_free (tries m) next m ≡ none → ⊥
    clash u stuck =
        cc (not_busy m _ u.unused, all_busy (tries m) next m u.step stuck u.positive u.bounded)
