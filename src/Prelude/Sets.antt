-- ===== src/Prelude/Sets.antt =====
-- Python sets of values with an equality test, as lists read up to order and repetition.
use mathlib.Core.Path.{◌≡◌, refl}
use mathlib.Core.Logic.{◌↔◌, inl, inr}
use mathlib.Core.Bool.{Bool, true, false, ◌&&◌, ◌||◌}
use mathlib.Core.List.{List, [], ◌∷◌}
use Prim.Native.Nat.{◌≤◌}
use native.Mathlib.Omega.{arith}
use ticket_sandbox.Prelude.Tests.{if◌then◌else◌, Bool-cases, nat_beq, &&-split}
use ticket_sandbox.Prelude.Lists.{length, all}
use ticket_sandbox.Prelude.Equality.{Eq, ◌==◌}

module _ {ℓ} {A : Type ℓ} ⦃e : Eq A⦄ where
  -- `a in xs`
  unfoldable pub contains : A → List A → Bool
  contains a [] = false
  contains a (x ∷ xs) = a == x || contains a xs

  -- `set(xs)`: each value once.
  unfoldable pub set : List A → List A
  unfolding contains
  set [] = []
  set (x ∷ xs) = if contains x xs then set xs else x ∷ set xs

  -- `not (set(xs) - set(ys))`
  unfoldable pub subset : List A → List A → Bool
  unfolding contains
  subset xs ys = all (λ x. contains x ys) xs

  -- `set(xs) == set(ys)`
  unfoldable pub set_eq : List A → List A → Bool
  unfolding subset
  set_eq xs ys = subset xs ys && subset ys xs

  -- `len(xs) == len(set(xs))`
  unfoldable pub all_distinct : List A → Bool
  unfolding set
  all_distinct xs = nat_beq (length xs) (length (set xs))

  -- No value stands twice.
  abbrev pub IsNodup : List A → Type 0
  IsNodup [] = Unit
  IsNodup (x ∷ xs) = (contains x xs ≡ false) × IsNodup xs

  pub ==-refl : (a : A) → (a == a) ≡ true
  ==-refl a = (e.equal_iff a a).1 refl

  pub contains-head : (a : A) (xs : List A) → contains a (a ∷ xs) ≡ true
  unfolding contains
  contains-head a xs = ground (arith, ==-refl a)

  pub contains-tail : (a x : A) (xs : List A) → contains a xs ≡ true → contains a (x ∷ xs) ≡ true
  unfolding contains
  contains-tail a x xs h = ground arith

  length-set : (xs : List A) → length (set xs) ≤ length xs
  unfolding set
  length-set [] = omega arith
  length-set (x ∷ xs) = ground (arith, length-set xs)

  -- The test by lengths finds exactly the lists without repetition.
  pub all_distinct-IsNodup : (xs : List A) → (all_distinct xs ≡ true) ↔ IsNodup xs
  unfolding all_distinct
  all_distinct-IsNodup [] = (λ h. tt, λ h. refl)
  all_distinct-IsNodup (x ∷ xs) = elim (Bool-cases (contains x xs)) [
    | inl old ↦ ground (arith, old, length-set xs)
    | inr new ↦ ground (arith, new, all_distinct-IsNodup xs)
  ]

  pub subset-contains :
      (xs ys : List A) (a : A) → subset xs ys ≡ true → contains a xs ≡ true → contains a ys ≡ true
  unfolding subset
  subset-contains [] ys a h m = cc
  subset-contains (x ∷ xs) ys a h m = elim (Bool-cases (a == x)) [
    | inl same ↦ rw ((e.equal_iff a x).0 same) ((&&-split _ _ h).0)
    | inr other ↦ subset-contains xs ys a (&&-split _ _ h).1 (ground (arith, other))
  ]

  pub contains-subset :
      (xs ys : List A)
      → ((a : A) → contains a xs ≡ true → contains a ys ≡ true)
      → subset xs ys ≡ true
  unfolding subset
  contains-subset [] ys h = refl
  contains-subset (x ∷ xs) ys h =
      ground (
        arith,
        h x (contains-head x xs),
        contains-subset xs ys (λ a m. h a (contains-tail a x xs m)),
      )

  -- Sets are equal exactly when they have the same members.
  pub set_eq-contains :
      (xs ys : List A)
      → (set_eq xs ys ≡ true) ↔ ((a : A) → (contains a xs ≡ true) ↔ (contains a ys ≡ true))
  unfolding set_eq
  set_eq-contains xs ys = (
    λ h a. (subset-contains xs ys a (&&-split _ _ h).0, subset-contains ys xs a (&&-split _ _ h).1),
    λ h. ground (arith, contains-subset xs ys (λ a. (h a).0), contains-subset ys xs (λ a. (h a).1)),
  )

  pub set_eq_refl : (xs : List A) → set_eq xs xs ≡ true
  set_eq_refl xs = (set_eq-contains xs xs).1 (λ a. (λ h. h, λ h. h))

  -- A list without repetition is its own set.
  pub set-IsNodup : (xs : List A) → IsNodup xs → set xs ≡ xs
  unfolding set
  set-IsNodup [] h = refl
  set-IsNodup (x ∷ xs) h = ground (arith, set-IsNodup xs h.1)

  -- A set has the members of its list.
  pub contains-set : (a : A) (xs : List A) → contains a (set xs) ≡ contains a xs
  unfolding set contains
  contains-set a [] = refl
  contains-set a (x ∷ xs) = elim (Bool-cases (a == x)) [
    | inl same ↦ rw ((e.equal_iff a x).0 same) (ground (arith, ==-refl x, contains-set x xs))
    | inr other ↦ ground (arith, other, contains-set a xs)
  ]
