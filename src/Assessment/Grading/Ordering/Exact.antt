-- ===== src/Assessment/Grading/Ordering/Exact.antt =====
-- The full score of `_grade_ordering` in assessment/services/answer_grading.py.
use ticket_sandbox.Prelude.{
  ℕ, ◌+◌, ◌*◌, ◌≤◌, ◌<◌, ◌≡◌, ◌↔◌, refl, sym, Bool, true, not, ◌&&◌, List, [], ◌∷◌, ok, length, all,
  arith, ltb, nat_beq,
}
use ticket_sandbox.Prelude.Sets.{
  contains, IsNodup, set_eq, all_distinct, all_distinct-IsNodup, set_eq-contains, contains-head,
  contains-tail, set_eq_refl,
}
use ticket_sandbox.Prelude.Text.{Text, text_eq}
use ticket_sandbox.Assessment.Grading.{positions_from, in_order, count_pairs, grade_order}
use ticket_sandbox.Assessment.Grading.Percentage.{
  hundred, percentage, percentage-all, percentage-eq-hundred,
}
use ticket_sandbox.Assessment.Grading.Bounds.{count_pairs-le}
use ticket_sandbox.Assessment.Grading.Ordering.{
  in_order-index, InOrder, count_pairs-InOrder, count_pairs-total,
}
use ticket_sandbox.Assessment.Grading.Ordering.Ranks.{
  After, Ascending, Ascending-eq, Ascending-self, Ascending-IsNodup,
}

all-After :
    (order : List Text) (x : Text) (xs : List Text)
    → IsNodup order
    → contains x order ≡ true
    → ((k : Text) → contains k xs ≡ true → contains k order ≡ true)
    → (all (in_order (positions_from [] 0 order) x) xs ≡ true) ↔ After order x xs
all-After order x [] h hx known = (λ a. tt, λ a. refl)
all-After order x (y ∷ ys) h hx known = ground (
  arith,
  in_order-index order x y h hx (known y (contains-head y ys)),
  all-After order x ys h hx (λ k m. known k (contains-tail k y ys m)),
)

InOrder-Ascending :
    (order xs : List Text)
    → IsNodup order
    → ((k : Text) → contains k xs ≡ true → contains k order ≡ true)
    → InOrder (positions_from [] 0 order) xs ↔ Ascending order xs
InOrder-Ascending order [] h known = (λ a. tt, λ a. tt)
InOrder-Ascending order (x ∷ xs) h known = ground (
  arith,
  all-After order x xs h (known x (contains-head x xs)) (λ k m. known k (contains-tail k x xs m)),
  InOrder-Ascending order xs h (λ k m. known k (contains-tail k x xs m)),
)

-- The tests that `_grade_ordering` makes before it counts.
abbrev is_complete : List Text → List Text → Bool
is_complete correct submitted =
    (nat_beq (length submitted) (length correct) && set_eq submitted correct)
    && (all_distinct submitted && not (ltb (length correct) 2))

abbrev counters : List Text → List Text → ℕ × ℕ
counters correct submitted = count_pairs (positions_from [] 0 submitted) correct (0, 0)

few_pairs : (n t : ℕ) → n ≤ 200 → 2 * t + n ≡ n * n → t < 20000
few_pairs n t h e = grind arith

some_pairs : (n t : ℕ) → 2 ≤ n → 2 * t + n ≡ n * n → 0 < t
some_pairs n t h e = grind arith

module _ (correct submitted : List Text) where
  total_pairs :
      2 * (counters correct submitted).1 + length correct ≡ length correct * length correct
  total_pairs = omega (arith, count_pairs-total (positions_from [] 0 submitted) correct (0, 0))

  tests : (grade_order correct submitted ≡ ok hundred) ↔ (
      (is_complete correct submitted ≡ true)
      × (percentage (counters correct submitted).0 (counters correct submitted).1 ≡ hundred))
  unfolding grade_order
  tests = ground arith

  all_right :
      length correct ≤ 200
      → percentage (counters correct submitted).0 (counters correct submitted).1 ≡ hundred
      → (counters correct submitted).0 ≡ (counters correct submitted).1
  all_right short e =
      percentage-eq-hundred (counters correct submitted).0 (counters correct submitted).1
        (few_pairs (length correct) (counters correct submitted).1 short total_pairs) e
        (count_pairs-le (positions_from [] 0 submitted) correct (0, 0) (omega arith))

-- The right order itself scores 100.00, however many items it has.
pub grade_order_self :
    (correct : List Text)
    → IsNodup correct
    → 2 ≤ length correct
    → grade_order correct correct ≡ ok hundred
grade_order_self correct once two = (tests correct correct).1 (
  ground (arith, set_eq_refl correct, (all_distinct-IsNodup correct).1 once, two),
  rw
      ((count_pairs-InOrder (positions_from [] 0 correct) correct (0, 0) (omega arith)).1
        (refl, (InOrder-Ascending correct correct once (λ k m. m)).1 (Ascending-self correct once)))
      (percentage-all (counters correct correct).1 (
        some_pairs (length correct) (counters correct correct).1 two
          (total_pairs correct correct))),
)

-- For at most 200 items, an order scores 100.00 exactly when it is the right order, without
-- repetitions and of two items or more.
pub grade_order-hundred_iff :
    (correct submitted : List Text)
    → length correct ≤ 200
    → (grade_order correct submitted ≡ ok hundred)
      ↔ ((submitted ≡ correct) × IsNodup correct × (2 ≤ length correct))
grade_order-hundred_iff correct submitted short = (forth, back)
  where
    forth :
        grade_order correct submitted ≡ ok hundred
        → (submitted ≡ correct) × IsNodup correct × (2 ≤ length correct)
    forth e =
        let passed = (tests correct submitted).0 e in
        let two : 2 ≤ length correct = ground (arith, passed.0) in
        let same = (set_eq-contains submitted correct).0 (ground (arith, passed.0)) in
        let distinct = (all_distinct-IsNodup submitted).0 (ground (arith, passed.0)) in
        let equal = all_right correct submitted short passed.1 in
        let ascending : Ascending submitted correct =
          (InOrder-Ascending submitted correct distinct (λ k. (same k).1)).0
            ((count_pairs-InOrder (positions_from [] 0 submitted) correct (0, 0) (omega arith)).0
              equal).1 in
        let once = Ascending-IsNodup submitted correct ascending in
        let right : correct ≡ submitted =
          Ascending-eq correct submitted once distinct (ground (arith, passed.0))
            (λ k. ((same k).1, (same k).0)) ascending in
        (sym right, once, two)

    back :
        (submitted ≡ correct) × IsNodup correct × (2 ≤ length correct)
        → grade_order correct submitted ≡ ok hundred
    back v = rw v.0 (grade_order_self correct v.1 v.2)
