-- ===== src/Assessment/Grading/Percentage.antt =====
-- `_percentage` of assessment/services/answer_grading.py and `_average_score` of
-- assessment/services/results.py: quotients rounded half up to two decimal places.
use native.Mathlib.Nat.{div-lt_iff_lt-mul, le-div_iff_mul-le}
use ticket_sandbox.Prelude.{
  ℕ, ◌+◌, ◌*◌, ◌/◌, ◌≤◌, ◌<◌, ◌≡◌, zero, suc, List, [], ◌∷◌, All, length, sum, leb, is_empty,
  if◌then◌else◌, arith, refl,
}

-- `HUNDRED`, in hundredths of a per cent.
abbrev pub hundred : ℕ
hundred = 10000

-- `quantize(Decimal("0.01"), ROUND_HALF_UP)` of the quotient of n hundredths by d.
unfoldable pub round_half_up : ℕ → ℕ → ℕ
round_half_up n d = (2 * n + d) / (2 * d)

unfoldable pub percentage : ℕ → ℕ → ℕ
unfolding round_half_up
percentage correct total = if leb total 0 then 0 else round_half_up (correct * hundred) total

unfoldable pub average_score : List ℕ → ℕ
unfolding round_half_up
average_score scores = if is_empty scores then 0 else round_half_up (sum scores) (length scores)

-- The rounded quotient is within half a unit of the exact one.
round_half_up_bounds :
    (n d : ℕ)
    → 0 < d
    → (2 * d * round_half_up n d ≤ 2 * n + d) × (2 * n < 2 * d * round_half_up n d + d)
unfolding round_half_up
round_half_up_bounds n d h = omega arith

pub round_half_up-le : (k n d : ℕ) → 0 < d → n ≤ k * d → round_half_up n d ≤ k
unfolding round_half_up
round_half_up-le k n d h b = omega (
  arith,
  (div-lt_iff_lt-mul {k = 2 * d} {x = 2 * n + d} {y = k + 1} (omega arith)).1 (omega arith),
)

pub le-round_half_up : (k n d : ℕ) → 0 < d → k * d ≤ n → k ≤ round_half_up n d
unfolding round_half_up
le-round_half_up k n d h b =
    (le-div_iff_mul-le {k = 2 * d} {x = k} {y = 2 * n + d} (omega arith)).1 (omega arith)

pub percentage_lem : (c t : ℕ) → 0 < t → percentage c t ≡ round_half_up (c * hundred) t
unfolding percentage
percentage_lem c t h = ground arith

pub percentage-zero : (c : ℕ) → percentage c 0 ≡ 0
unfolding percentage
percentage-zero c = refl

pub percentage-le-hundred : (c t : ℕ) → c ≤ t → percentage c t ≤ hundred
percentage-le-hundred c zero h = rw percentage-zero (omega arith)
percentage-le-hundred c (suc t) h =
    rw (percentage_lem c (suc t) (omega arith))
      (round_half_up-le hundred (c * hundred) (suc t) (omega arith) (omega arith))

pub percentage-all : (t : ℕ) → 0 < t → percentage t t ≡ hundred
percentage-all t h = omega (
  arith,
  percentage-le-hundred t t (omega arith),
  percentage_lem t t h,
  le-round_half_up hundred (t * hundred) t h (omega arith),
)

pub percentage-none : (t : ℕ) → percentage 0 t ≡ 0
percentage-none zero = percentage-zero 0
percentage-none (suc t) = omega (
  arith,
  percentage_lem 0 (suc t) (omega arith),
  round_half_up-le 0 0 (suc t) (omega arith) (omega arith),
)

pub percentage-eq-hundred : (c t : ℕ) → t < 20000 → percentage c t ≡ hundred → c ≤ t → c ≡ t
unfolding percentage
percentage-eq-hundred c t h e k = grind arith

pub sum-le : (b : ℕ) (xs : List ℕ) → All (λ x. x ≤ b) xs → sum xs ≤ b * length xs
sum-le b [] h = omega arith
sum-le b (x ∷ xs) h = omega (arith, sum-le b xs h.1)

-- An average of scores up to a hundred is no more than a hundred.
pub average_score-le-hundred :
    (xs : List ℕ) → All (λ x. x ≤ hundred) xs → average_score xs ≤ hundred
unfolding average_score
average_score-le-hundred [] h = omega arith
average_score-le-hundred (x ∷ xs) h = grind (arith, sum-le hundred (x ∷ xs) h)

pub average_score_lem :
    (xs : List ℕ) → 0 < length xs → average_score xs ≡ round_half_up (sum xs) (length xs)
unfolding average_score
average_score_lem [] h = elim h [ ]
average_score_lem (x ∷ xs) h = refl

pub le-sum : (b : ℕ) (xs : List ℕ) → All (λ x. b ≤ x) xs → b * length xs ≤ sum xs
le-sum b [] h = omega arith
le-sum b (x ∷ xs) h = omega (arith, le-sum b xs h.1)

-- The average of at least one score, all of them from `low` to `high`, is from `low` to `high`, and
-- it is the hundredth nearest to the exact average, the upper one of two that are equally near.
pub average_score_bounds :
    (low high : ℕ) (scores : List ℕ)
    → 0 < length scores
    → All (λ x. low ≤ x) scores
    → All (λ x. x ≤ high) scores
    → (low ≤ average_score scores)
      × (average_score scores ≤ high)
      × (2 * length scores * average_score scores ≤ 2 * sum scores + length scores)
      × (2 * sum scores < 2 * length scores * average_score scores + length scores)
average_score_bounds low high scores some_q above below =
    let (up, down) = round_half_up_bounds (sum scores) (length scores) some_q in
    rw (average_score_lem scores some_q) (
      le-round_half_up low (sum scores) (length scores) some_q (le-sum low scores above),
      round_half_up-le high (sum scores) (length scores) some_q (sum-le high scores below),
      up,
      down,
    )
