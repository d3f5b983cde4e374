-- ===== src/Prelude/Pigeonhole.antt =====
-- A list without repetition is no longer than any list that has its members.
use mathlib.Core.Path.{◌≡◌}
use mathlib.Core.Logic.{inl, inr}
use mathlib.Core.Bool.{true, false}
use mathlib.Core.List.{List, [], ◌∷◌}
use Prim.Native.Nat.{suc, ◌≤◌}
use native.Mathlib.Omega.{arith}
use ticket_sandbox.Prelude.Tests.{if◌then◌else◌, Bool-cases}
use ticket_sandbox.Prelude.Lists.{length}
use ticket_sandbox.Prelude.Equality.{Eq, ◌==◌}
use ticket_sandbox.Prelude.Sets.{contains, IsNodup, contains-head, contains-tail}

module _ {ℓ} {A : Type ℓ} ⦃e : Eq A⦄ where
  remove : A → List A → List A
  remove a [] = []
  remove a (x ∷ xs) = if a == x then xs else x ∷ remove a xs

  length-remove :
      (a : A) (xs : List A) → contains a xs ≡ true → suc (length (remove a xs)) ≡ length xs
  unfolding remove contains
  length-remove a [] h = cc
  length-remove a (x ∷ xs) h = ground (arith, length-remove a xs)

  contains-remove :
      (a b : A) (xs : List A)
      → (b == a) ≡ false
      → contains b xs ≡ true
      → contains b (remove a xs) ≡ true
  unfolding remove contains
  contains-remove a b [] h m = m
  contains-remove a b (x ∷ xs) h m =
      ground (arith, contains-remove a b xs h, e.equal_iff a x, e.equal_iff b x, e.equal_iff b a)

  other-member :
      (x a : A) (xs : List A) → contains x xs ≡ false → contains a xs ≡ true → (a == x) ≡ false
  other-member x a xs h m = elim (Bool-cases (a == x)) [
    | inl same ↦ let again : contains x xs ≡ true = rw (← (e.equal_iff a x).0 same) m in cc
    | inr other ↦ other
  ]

  pub length-le-members :
      (xs ys : List A)
      → IsNodup xs
      → ((a : A) → contains a xs ≡ true → contains a ys ≡ true)
      → length xs ≤ length ys
  length-le-members [] ys h known = omega arith
  length-le-members (x ∷ xs) ys h known = omega (
    arith,
    length-remove x ys (known x (contains-head x xs)),
    length-le-members xs (remove x ys) h.1 (λ a m.
        contains-remove x a ys (other-member x a xs h.0 m) (known a (contains-tail a x xs m))),
  )
