-- ===== src/Assessment/Random.antt =====
-- Python's `random.Random`, seeded by a text through SHA-256: neither is code of the repository, so
-- the services take it as a parameter.
use mathlib.Core.List.{Perm}
use ticket_sandbox.Prelude.{ℕ, nat_eq, ◌≤◌, ◌≡◌, true, List, ◌∷◌, length, All}
use ticket_sandbox.Prelude.Sets.{contains, IsNodup}
use ticket_sandbox.Prelude.Text.{Text}

-- The generator, and its calls with the generator that they leave.
pub record Random : Type 1 where
  pub Rng : Type 0
  -- `random.Random(int.from_bytes(sha256(text).digest(), "big"))`
  pub seeded : Text → Rng
  pub shuffle : (A : Type 0) → Rng → List A → List A × Rng
  -- `sample(population, k)` of numbers
  pub sample : Rng → List ℕ → ℕ → List ℕ × Rng
  -- `choice(first ∷ rest)`
  pub choice : (A : Type 0) → Rng → A → List A → A × Rng

-- What the documentation of `random` says of them.
pub record IsRandom (r : Random) : Type 1 where
  -- a shuffle permutes
  pub shuffle_perm : (A : Type 0) (g : r.Rng) (xs : List A) → Perm (r.shuffle A g xs).0 xs
  -- a sample of at most the population has k members of it, chosen without replacement
  pub sample_length :
      (g : r.Rng) (xs : List ℕ) (k : ℕ) → k ≤ length xs → length (r.sample g xs k).0 ≡ k
  pub sample_members :
      (g : r.Rng) (xs : List ℕ) (k : ℕ)
      → k ≤ length xs
      → All (λ x. contains x xs ≡ true) (r.sample g xs k).0
  pub sample_distinct :
      (g : r.Rng) (xs : List ℕ) (k : ℕ) → k ≤ length xs → IsNodup xs → IsNodup (r.sample g xs k).0
  -- a choice is an element: what holds of all elements holds of it
  pub choice_member :
      (A : Type 0) (P : A → Type 0) (g : r.Rng) (x : A) (xs : List A)
      → All P (x ∷ xs)
      → P (r.choice A g x xs).0
