-- ===== src/Assessment/Grading/Bounds.antt =====
-- The scores of all question types in assessment/services/answer_grading.py.
use ticket_sandbox.Prelude.{
  ℕ, ◌+◌, ◌≤◌, ◌≡◌, List, [], ◌∷◌, ok, length, count, count-le-length, if◌then◌else◌, arith, inl,
  inr, Option-cases,
}
use ticket_sandbox.Prelude.Sets.{set}
use ticket_sandbox.Prelude.Dict.{Dict}
use ticket_sandbox.Prelude.Text.{Text, text_eq, codes}
use ticket_sandbox.Assessment.Constants.{QuestionType}
use ticket_sandbox.Assessment.Grading.{
  Response, ResponseValue, Gradable, item_keys, grade_choice, is_matched, grade_matching,
  get_object, get_list, in_order, count_after, count_pairs, positions_from, grade_order,
  grade_ordering, grade_line_selection, grade_by_type, grade_snapshot_answer,
}
use ticket_sandbox.Assessment.Grading.Percentage.{hundred, percentage-le-hundred}

grade_choice-le :
    (s : Gradable) (p : Dict Text ResponseValue) {q : ℕ} → grade_choice s p ≡ ok q → q ≤ hundred
unfolding grade_choice
grade_choice-le s p h = ground arith

grade_line_selection-le :
    (s : Gradable) (p : Dict Text ResponseValue) {q : ℕ}
    → grade_line_selection s p ≡ ok q
    → q ≤ hundred
unfolding grade_line_selection
grade_line_selection-le s p h = ground arith

grade_matching-le :
    (s : Gradable) (p : Dict Text ResponseValue) {q : ℕ} → grade_matching s p ≡ ok q → q ≤ hundred
unfolding grade_matching
grade_matching-le s p h = elim (Option-cases (get_object p (codes "matches"))) [
  | inl absent ↦ ground arith
  | inr (m, e) ↦ ground (
    arith,
    count-le-length (is_matched m s.grading.matches) (set (item_keys s.visible.left_items)),
    percentage-le-hundred
        (count (is_matched m s.grading.matches) (set (item_keys s.visible.left_items)))
        (length (set (item_keys s.visible.left_items))),
  )
]

-- The counters of the loops: right pairs never outrun all pairs.
count_after-le :
    (d : Dict Text ℕ) (x : Text) (xs : List Text) (acc : ℕ × ℕ)
    → acc.0 ≤ acc.1
    → (count_after d x xs acc).0 ≤ (count_after d x xs acc).1
unfolding count_after
count_after-le d x [] acc h = h
count_after-le d x (y ∷ ys) (c, t) h =
    count_after-le d x ys ((if in_order d x y then c + 1 else c), t + 1) (ground arith)

pub count_pairs-le :
    (d : Dict Text ℕ) (xs : List Text) (acc : ℕ × ℕ)
    → acc.0 ≤ acc.1
    → (count_pairs d xs acc).0 ≤ (count_pairs d xs acc).1
unfolding count_pairs
count_pairs-le d [] acc h = h
count_pairs-le d (x ∷ xs) acc h =
    count_pairs-le d xs (count_after d x xs acc) (count_after-le d x xs acc h)

grade_order-le :
    (correct submitted : List Text) {q : ℕ} → grade_order correct submitted ≡ ok q → q ≤ hundred
unfolding grade_order
grade_order-le correct submitted h =
    let pairs = count_pairs (positions_from [] 0 submitted) correct (0, 0) in
    ground (
      arith,
      count_pairs-le (positions_from [] 0 submitted) correct (0, 0) (omega arith),
      percentage-le-hundred pairs.0 pairs.1,
    )

grade_ordering-le :
    (s : Gradable) (p : Dict Text ResponseValue) {q : ℕ} → grade_ordering s p ≡ ok q → q ≤ hundred
unfolding grade_ordering
grade_ordering-le s p h = elim (Option-cases (get_list p (codes "order"))) [
  | inl absent ↦ ground arith
  | inr (o, e) ↦ grade_order-le s.grading.correct_order o (ground arith)
]

grade_by_type-le :
    (t : QuestionType) (s : Gradable) (p : Dict Text ResponseValue) {q : ℕ}
    → grade_by_type t s p ≡ ok q
    → q ≤ hundred
grade_by_type-le QuestionType.single_choice s p h = grade_choice-le s p (unfold grade_by_type in h)
grade_by_type-le QuestionType.multiple_choice s p h =
    grade_choice-le s p (unfold grade_by_type in h)
grade_by_type-le QuestionType.matching s p h = grade_matching-le s p (unfold grade_by_type in h)
grade_by_type-le QuestionType.ordering s p h = grade_ordering-le s p (unfold grade_by_type in h)
grade_by_type-le QuestionType.line_selection s p h =
    grade_line_selection-le s p (unfold grade_by_type in h)
grade_by_type-le QuestionType.other s p h = unfold grade_by_type in cc

-- Whatever the question, its payloads and the response, a returned score is at most 100.00.
pub grade_snapshot_answer-le-hundred :
    (s : Gradable) (r : Response) {q : ℕ} → grade_snapshot_answer s r ≡ ok q → q ≤ hundred
unfolding grade_snapshot_answer
grade_snapshot_answer-le-hundred s Response.not_an_object h = cc
grade_snapshot_answer-le-hundred s (Response.fields p) h = grade_by_type-le s.question_type s p h
