-- ===== src/Assessment/Tests/Generator.antt =====
-- A generator that draws in order: `shuffle` leaves a list, `sample` takes its front, `choice` takes
-- the first.
use mathlib.Core.List.Perm
use ticket_sandbox.Prelude.{
  ℕ, zero, suc, ◌≤◌, ◌≡◌, refl, nat_eq, true, List, [], ◌∷◌, length, All, arith,
}
use ticket_sandbox.Prelude.Sets.{contains, IsNodup}
use ticket_sandbox.Assessment.Random.{Random, IsRandom}

abbrev pub take : ℕ → List ℕ → List ℕ
take zero xs = []
take (suc k) [] = []
take (suc k) (x ∷ xs) = x ∷ take k xs

abbrev pub drawn_in_order : Random
drawn_in_order = record {
  Rng = Unit {0};
  seeded = λ t. tt;
  shuffle = λ A g xs. (xs, g);
  sample = λ g xs k. (take k xs, g);
  choice = λ A g x xs. (x, g);
}

length-take : (xs : List ℕ) (k : ℕ) → k ≤ length xs → length (take k xs) ≡ k
length-take xs zero h = refl
length-take [] (suc k) h = omega arith
length-take (x ∷ xs) (suc k) h = omega (arith, length-take xs k (omega arith))

contains-take : (n : ℕ) (xs : List ℕ) (k : ℕ) → contains n (take k xs) ≡ true → contains n xs ≡ true
unfolding contains
contains-take n xs zero h = cc
contains-take n [] (suc k) h = cc
contains-take n (x ∷ xs) (suc k) h = ground (arith, contains-take n xs k)

All-contains :
    (ys xs : List ℕ)
    → ((n : ℕ) → contains n ys ≡ true → contains n xs ≡ true)
    → All (λ n. contains n xs ≡ true) ys
unfolding contains
All-contains [] xs h = tt
All-contains (y ∷ ys) xs h = (h y (ground arith), All-contains ys xs (λ n m. h n (ground arith)))

IsNodup-take : (xs : List ℕ) (k : ℕ) → IsNodup xs → IsNodup (take k xs)
IsNodup-take xs zero n = tt
IsNodup-take [] (suc k) n = tt
IsNodup-take (x ∷ xs) (suc k) n = (ground (arith, contains-take x xs k, n.0), IsNodup-take xs k n.1)

pub drawn_in_order-IsRandom : IsRandom drawn_in_order
drawn_in_order-IsRandom = record {
  shuffle_perm = λ A g xs. Perm.refl xs;
  sample_length = λ g xs k h. length-take xs k h;
  sample_members = λ g xs k h. All-contains (take k xs) xs (λ n m. contains-take n xs k m);
  sample_distinct = λ g xs k h n. IsNodup-take xs k n;
  choice_member = λ A P g x xs all. all.0;
}
