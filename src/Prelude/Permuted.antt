-- ===== src/Prelude/Permuted.antt =====
-- What a permutation of a list keeps: every count, so every membership test and the length.
use mathlib.Core.Path.{◌≡◌, refl}
use mathlib.Core.Logic.{∥∥₁_elim}
use mathlib.Core.Bool.{Bool, true}
use mathlib.Core.Logic.{◌↔◌}
use mathlib.Core.List.{List, [], ◌∷◌, Perm, Permᴰ}
use native.Mathlib.Nat.{ℕ_set}
use native.Mathlib.Omega.{arith}
use ticket_sandbox.Prelude.Lists.{length, count, all, count-le-length}

module _ {ℓ} {A : Type ℓ} where
  count-Permᴰ : (p : A → Bool) {xs ys : List A} → Permᴰ xs ys → count p xs ≡ count p ys
  count-Permᴰ p Permᴰ.nil = refl
  count-Permᴰ p (Permᴰ.cons e q) = ground (arith, count-Permᴰ p q)
  count-Permᴰ p (Permᴰ.swap e f) = ground arith
  count-Permᴰ p (Permᴰ.trans q r) = omega (arith, count-Permᴰ p q, count-Permᴰ p r)

  pub count-Perm : (p : A → Bool) (xs ys : List A) → Perm xs ys → count p xs ≡ count p ys
  count-Perm p xs ys h = ∥∥₁_elim h (ℕ_set _ _) (count-Permᴰ p)

  length-Permᴰ : {xs ys : List A} → Permᴰ xs ys → length xs ≡ length ys
  length-Permᴰ Permᴰ.nil = refl
  length-Permᴰ (Permᴰ.cons e q) = omega (arith, length-Permᴰ q)
  length-Permᴰ (Permᴰ.swap e f) = refl
  length-Permᴰ (Permᴰ.trans q r) = omega (arith, length-Permᴰ q, length-Permᴰ r)

  pub length-Perm : (xs ys : List A) → Perm xs ys → length xs ≡ length ys
  length-Perm xs ys h = ∥∥₁_elim h (ℕ_set _ _) length-Permᴰ

  all-count : (p : A → Bool) (xs : List A) → (all p xs ≡ true) ↔ (count p xs ≡ length xs)
  all-count p [] = (λ h. refl, λ h. refl)
  all-count p (x ∷ xs) = ground (arith, all-count p xs, count-le-length p xs)

  pub all-Perm : (p : A → Bool) (xs ys : List A) → Perm xs ys → all p ys ≡ true → all p xs ≡ true
  all-Perm p xs ys h e =
      (all-count p xs).1
        (omega (arith, count-Perm p xs ys h, length-Perm xs ys h, (all-count p ys).0 e))
