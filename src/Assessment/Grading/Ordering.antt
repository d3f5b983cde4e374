-- ===== src/Assessment/Grading/Ordering.antt =====
-- The pair loops of `_grade_ordering` in assessment/services/answer_grading.py.
pub mod Ranks
pub mod Exact
use ticket_sandbox.Prelude.{
  ℕ, zero, suc, ◌+◌, ◌*◌, ◌≤◌, ◌<◌, ◌≡◌, ◌↔◌, refl, Bool, true, false, none, some, List, [], ◌∷◌,
  length, all, count, count-le-length, if◌then◌else◌, arith, Bool-cases, inl, inr, ◌==◌, ltb,
}
use ticket_sandbox.Prelude.Sets.{contains, IsNodup}
use ticket_sandbox.Prelude.Dict.{Dict, get, put, get-put}
use ticket_sandbox.Prelude.Text.{Text, text_eq, text_beq_iff}
use ticket_sandbox.Assessment.Grading.{positions_from, in_order, count_after, count_pairs}
use ticket_sandbox.Assessment.Grading.Bounds.{count_pairs-le}
use Ranks.{index, Ascending}

-- The dict of positions holds each key's index.
pub get-positions_from :
    (d : Dict Text ℕ) (p : ℕ) (xs : List Text) (k : Text)
    → IsNodup xs
    → get (positions_from d p xs) k ≡ (if contains k xs then some (p + index k xs) else get d k)
unfolding positions_from contains index
get-positions_from d p [] k h = refl
get-positions_from d p (x ∷ xs) k h =
    ground
      (arith, get-positions_from (put d x p) (p + 1) xs k h.1, get-put d x k p, text_beq_iff k x)

pub in_order-index :
    (xs : List Text) (a b : Text)
    → IsNodup xs
    → contains a xs ≡ true
    → contains b xs ≡ true
    → in_order (positions_from [] 0 xs) a b ≡ ltb (index a xs) (index b xs)
unfolding in_order
in_order-index xs a b h ha hb =
    ground (arith, get-positions_from [] 0 xs a h, get-positions_from [] 0 xs b h)

count_after_lem :
    (d : Dict Text ℕ) (x : Text) (xs : List Text) (acc : ℕ × ℕ)
    → count_after d x xs acc ≡ (acc.0 + count (in_order d x) xs, acc.1 + length xs)
unfolding count_after
count_after_lem d x [] acc = ground arith
count_after_lem d x (y ∷ ys) (c, t) =
    ground (arith, count_after_lem d x ys ((if in_order d x y then c + 1 else c), t + 1))

-- Every pair of the list stands in the order of the positions.
abbrev pub InOrder : Dict Text ℕ → List Text → Type 0
InOrder d [] = Unit
InOrder d (x ∷ xs) = (all (in_order d x) xs ≡ true) × InOrder d xs

count-all :
    (d : Dict Text ℕ) (x : Text) (xs : List Text)
    → (count (in_order d x) xs ≡ length xs) ↔ (all (in_order d x) xs ≡ true)
count-all d x [] = (λ h. refl, λ h. refl)
count-all d x (y ∷ ys) = ground (arith, count-all d x ys, count-le-length (in_order d x) ys)

-- The counters agree at the end exactly if they agreed before and every pair is in order.
pub count_pairs-InOrder :
    (d : Dict Text ℕ) (xs : List Text) (acc : ℕ × ℕ)
    → acc.0 ≤ acc.1
    → ((count_pairs d xs acc).0 ≡ (count_pairs d xs acc).1) ↔ ((acc.0 ≡ acc.1) × InOrder d xs)
unfolding count_pairs
count_pairs-InOrder d [] acc h = (λ e. (e, tt), λ e. e.0)
count_pairs-InOrder d (x ∷ xs) acc h = ground (
  arith,
  count_after_lem d x xs acc,
  count-le-length (in_order d x) xs,
  count-all d x xs,
  count_pairs-InOrder d xs (acc.0 + count (in_order d x) xs, acc.1 + length xs),
)

-- n keys make n (n - 1) / 2 pairs.
pub count_pairs-total :
    (d : Dict Text ℕ) (xs : List Text) (acc : ℕ × ℕ)
    → 2 * (count_pairs d xs acc).1 + length xs ≡ 2 * acc.1 + length xs * length xs
unfolding count_pairs
count_pairs-total d [] acc = omega arith
count_pairs-total d (x ∷ xs) acc = ground (
  arith,
  count_after_lem d x xs acc,
  count_pairs-total d xs (acc.0 + count (in_order d x) xs, acc.1 + length xs),
)
