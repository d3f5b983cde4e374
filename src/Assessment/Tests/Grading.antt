-- ===== src/Assessment/Tests/Grading.antt =====
-- Runs of the grading, and its rounding.
use ticket_sandbox.Prelude.{
  ℕ, ◌+◌, ◌*◌, ◌≡◌, ◌↔◌, ◌≤◌, ◌<◌, ◌⊎◌, refl, true, List, [], ◌∷◌, some, ok, raised, length, sum,
  arith,
}
use ticket_sandbox.Prelude.Sets.{contains, set, set_eq, subset, all_distinct, IsNodup}
use ticket_sandbox.Prelude.Text.{Text, text_eq, text_beq, codes}
use ticket_sandbox.Prelude.Dict.{Dict, get, put, keys, values}
use ticket_sandbox.Assessment.Constants.{QuestionType, ServiceError}
use ticket_sandbox.Assessment.Grading.{
  Response, ResponseValue, Gradable, item_keys, get_list, grade_choice, grade_matches, is_matched,
  grade_order, count_pairs, count_after, in_order, positions_from, grade_line_selection,
  grade_snapshot_answer, grade_by_type, get_selected_keys, check_selected_keys,
}
use ticket_sandbox.Assessment.Grading.Percentage.{
  hundred, percentage, round_half_up, average_score, average_score_bounds,
}
use ticket_sandbox.Assessment.Grading.Bounds.{grade_snapshot_answer-le-hundred}
use ticket_sandbox.Assessment.Grading.Choice.{
  IsSelection, SameKeys, grade_choice-hundred_iff, grade_line_selection-hundred_iff,
}
use ticket_sandbox.Assessment.Grading.Choice.Refused.{IsChoice, grade_choice_cases}
use ticket_sandbox.Assessment.Grading.Matching.{grade_matches-hundred_iff}
use ticket_sandbox.Assessment.Grading.Ordering.Exact.{grade_order-hundred_iff}
use ticket_sandbox.Assessment.Snapshot.{no_visible, no_grading}

abbrev a : Text
a = codes "a"

abbrev b : Text
b = codes "b"

abbrev c : Text
c = codes "c"

-- Two of three are right.
abbrev multiple : Gradable
multiple = record {
  question_type = QuestionType.multiple_choice;
  visible = record no_visible {
    options =
        record { key = a; text = [] }
        ∷ record { key = b; text = [] }
        ∷ record { key = c; text = [] }
        ∷ [];
    lines = record { key = a; text = [] } ∷ record { key = b; text = [] } ∷ [];
    left_items = record { key = a; text = [] } ∷ record { key = b; text = [] } ∷ [];
    right_items = record { key = b; text = [] } ∷ record { key = c; text = [] } ∷ [];
  };
  grading = record no_grading { correct_keys = a ∷ b ∷ []; matches = (a, b) ∷ (b, c) ∷ [] };
}

abbrev selecting : List Text → Dict Text ResponseValue
selecting ks = (codes "selected_keys", ResponseValue.list ks) ∷ []

given_keys : get_list (selecting (b ∷ a ∷ [])) (codes "selected_keys") ≡ some (b ∷ a ∷ [])
unfolding get_list get text_beq
given_keys = refl

grade_choice-hundred_example : (grade_choice multiple (selecting (b ∷ a ∷ [])) ≡ ok hundred) ↔ (
    IsSelection (item_keys multiple.visible.options) (b ∷ a ∷ [])
    × (multiple.question_type ≡ QuestionType.single_choice → length (b ∷ a ∷ []) ≡ 1)
    × SameKeys (b ∷ a ∷ []) multiple.grading.correct_keys)
grade_choice-hundred_example =
    grade_choice-hundred_iff multiple (selecting (b ∷ a ∷ [])) (b ∷ a ∷ []) given_keys

-- The same option twice.
grade_choice_cases_example :
    let payload = selecting (a ∷ a ∷ []) in
    (IsChoice multiple payload
      × ((grade_choice multiple payload ≡ ok hundred) ⊎ (grade_choice multiple payload ≡ ok 0)))
    ⊎ ((¬ IsChoice multiple payload)
        × ((e : ServiceError) × (grade_choice multiple payload ≡ raised e)))
grade_choice_cases_example = grade_choice_cases multiple (selecting (a ∷ a ∷ []))

repeated_refused :
    grade_choice multiple (selecting (a ∷ a ∷ [])) ≡ raised ServiceError.repeated_option
unfolding grade_choice get_selected_keys check_selected_keys get_list get set_eq subset contains
    all_distinct text_beq
repeated_refused = refl

grade_line_selection-hundred_example :
    (grade_line_selection multiple (selecting (b ∷ a ∷ [])) ≡ ok hundred) ↔ (
      IsSelection (item_keys multiple.visible.lines) (b ∷ a ∷ [])
      × SameKeys (b ∷ a ∷ []) multiple.grading.correct_keys)
grade_line_selection-hundred_example =
    grade_line_selection-hundred_iff multiple (selecting (b ∷ a ∷ [])) (b ∷ a ∷ []) given_keys

two_left : length (set (item_keys multiple.visible.left_items)) < 20000
unfolding set contains text_beq
two_left = omega arith

grade_matches-hundred_example : (grade_matches multiple ((b, c) ∷ (a, b) ∷ []) ≡ ok hundred) ↔ (
    SameKeys (keys ((b, c) ∷ (a, b) ∷ [])) (set (item_keys multiple.visible.left_items))
    × SameKeys (values ((b, c) ∷ (a, b) ∷ [])) (set (item_keys multiple.visible.right_items))
    × IsNodup (values ((b, c) ∷ (a, b) ∷ []))
    × (0 < length (set (item_keys multiple.visible.left_items)))
    × ((k : Text)
        → contains k (set (item_keys multiple.visible.left_items)) ≡ true
        → get ((b, c) ∷ (a, b) ∷ []) k ≡ get multiple.grading.matches k))
grade_matches-hundred_example = grade_matches-hundred_iff multiple ((b, c) ∷ (a, b) ∷ []) two_left

grade_order-hundred_example : (grade_order (a ∷ b ∷ c ∷ []) (a ∷ b ∷ c ∷ []) ≡ ok hundred) ↔ (
    ((a ∷ b ∷ c ∷ []) ≡ (a ∷ b ∷ c ∷ []))
    × IsNodup (a ∷ b ∷ c ∷ [])
    × (2 ≤ length (a ∷ b ∷ c ∷ [])))
grade_order-hundred_example =
    grade_order-hundred_iff (a ∷ b ∷ c ∷ []) (a ∷ b ∷ c ∷ []) (omega arith)

-- One swap of neighbours leaves two pairs of three in order: 66.67.
order_swapped : grade_order (a ∷ b ∷ c ∷ []) (b ∷ a ∷ c ∷ []) ≡ ok 6667
unfolding grade_order count_pairs count_after in_order positions_from percentage round_half_up get
    put set_eq subset contains all_distinct text_beq
order_swapped = refl

-- Swapped right items match nothing.
matches_swapped : grade_matches multiple ((a, c) ∷ (b, b) ∷ []) ≡ ok 0
unfolding grade_matches is_matched percentage round_half_up get set set_eq subset contains
    all_distinct text_beq
matches_swapped = refl

graded_full : grade_snapshot_answer multiple (Response.fields (selecting (b ∷ a ∷ []))) ≡ ok 10000
unfolding grade_snapshot_answer grade_by_type grade_choice get_selected_keys check_selected_keys
    get_list get set_eq subset contains all_distinct text_beq
graded_full = refl

grade_snapshot_answer-le-hundred_example : 10000 ≤ hundred
grade_snapshot_answer-le-hundred_example =
    grade_snapshot_answer-le-hundred multiple (Response.fields (selecting (b ∷ a ∷ []))) {q = 10000}
      graded_full

-- 100.00, 66.67 and 0: the average is 55.56.
abbrev three_scores : List ℕ
three_scores = 10000 ∷ 6667 ∷ 0 ∷ []

average_score_bounds_example :
    (0 ≤ average_score three_scores)
    × (average_score three_scores ≤ hundred)
    × (2 * 3 * average_score three_scores ≤ 2 * sum three_scores + 3)
    × (2 * sum three_scores < 2 * 3 * average_score three_scores + 3)
average_score_bounds_example =
    average_score_bounds 0 hundred three_scores (omega arith)
      (omega arith, (omega arith, (omega arith, tt)))
      (omega arith, (omega arith, (omega arith, tt)))

averaged : average_score three_scores ≡ 5556
unfolding average_score round_half_up
averaged = refl
