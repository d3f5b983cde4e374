-- ===== src/Assessment/Grading.antt =====
-- assessment/services/answer_grading.py. Scores are decimals with two places: a score is its number
-- of hundredths, so `Decimal("100.00")` is 10000. Keys are texts, as the views build them.
pub mod Percentage
pub mod Bounds
pub mod Choice
pub mod Matching
pub mod Ordering
use ticket_sandbox.Prelude.{
  ℕ, ◌+◌, ◌*◌, Bool, true, false, not, ◌&&◌, ◌||◌, Option, none, some, List, [], ◌∷◌, Outcome, ok,
  raised, ◌>>=◌, ◌>>◌, raise_if, length, count, is_empty, ltb, if◌then◌else◌, nat_beq, ◌==◌,
}
use ticket_sandbox.Prelude.Sets.{set, subset, set_eq, all_distinct}
use ticket_sandbox.Prelude.Dict.{Dict, get, put, keys, values}
use ticket_sandbox.Prelude.Text.{Text, text_eq, codes}
use ticket_sandbox.Assessment.Constants.{QuestionType, ServiceError, Checked}
use Percentage.{hundred, percentage}

-- A value under a key of the response: a list of keys, an object from keys to keys, or neither.
pub data ResponseValue : Type 0 where
  list : List Text → ResponseValue
  object : Dict Text Text → ResponseValue
  scalar : ResponseValue

-- The response payload: a JSON object, or a JSON value of another kind.
pub data Response : Type 0 where
  fields : Dict Text ResponseValue → Response
  not_an_object : Response

-- An entry of `options`, `left_items`, `right_items`, `items` or `lines`.
pub record VisibleItem : Type 0 where
  pub key : Text
  pub text : Text

-- `visible_payload`; a list that the payload does not hold is empty, as `.get(name, [])` reads it.
pub record VisiblePayload : Type 0 where
  pub options : List VisibleItem
  pub left_items : List VisibleItem
  pub right_items : List VisibleItem
  pub items : List VisibleItem
  pub lines : List VisibleItem

-- `grading_payload`, read likewise.
pub record GradingPayload : Type 0 where
  pub correct_keys : List Text
  pub matches : Dict Text Text
  pub correct_order : List Text

abbrev pub item_keys : List VisibleItem → List Text
item_keys [] = []
item_keys (i ∷ is) = i.key ∷ item_keys is

-- `response_payload.get(name)` with the `isinstance` test: a list, or `none`.
unfoldable pub get_list : Dict Text ResponseValue → Text → Option (List Text)
get_list payload name = elim (get payload name) [
  | some (ResponseValue.list ks) ↦ some ks
  | _ ↦ none
]

unfoldable pub get_object : Dict Text ResponseValue → Text → Option (Dict Text Text)
get_object payload name = elim (get payload name) [
  | some (ResponseValue.object d) ↦ some d
  | _ ↦ none
]

-- The checks of `_get_selected_keys` on a list.
unfoldable pub check_selected_keys : List Text → List Text → Checked (List Text)
check_selected_keys available selected = do
  raise_if (is_empty selected) ServiceError.nothing_selected
  raise_if (not (all_distinct selected)) ServiceError.repeated_option
  raise_if (not (subset selected available)) ServiceError.unknown_option
  ok selected

unfoldable pub get_selected_keys : Dict Text ResponseValue → List Text → Checked (List Text)
unfolding check_selected_keys
get_selected_keys payload available = elim (get_list payload (codes "selected_keys")) [
  | none ↦ raised ServiceError.no_selected_keys
  | some selected ↦ check_selected_keys available selected
]

-- The snapshot's columns that grading reads.
pub record Gradable : Type 0 where
  pub question_type : QuestionType
  pub visible : VisiblePayload
  pub grading : GradingPayload

abbrev is_single : QuestionType → Bool
is_single QuestionType.single_choice = true
is_single _ = false

unfoldable pub grade_choice : Gradable → Dict Text ResponseValue → Checked ℕ
unfolding get_selected_keys
grade_choice snapshot payload = do
  selected ← get_selected_keys payload (item_keys snapshot.visible.options)
  raise_if (is_single snapshot.question_type && not (nat_beq (length selected) 1))
      ServiceError.one_option_only
  ok (if set_eq selected snapshot.grading.correct_keys then hundred else 0)

-- `submitted_matches[left_key] == correct_matches.get(left_key)`
unfoldable pub is_matched : Dict Text Text → Dict Text Text → Text → Bool
is_matched submitted correct left = elim (get submitted left) [
  | none ↦ false
  | some a ↦ elim (get correct left) [ none ↦ false | some b ↦ a == b ]
]

-- The checks on a submitted object, and its score.
unfoldable pub grade_matches : Gradable → Dict Text Text → Checked ℕ
unfolding is_matched
grade_matches snapshot submitted =
    let left_keys = set (item_keys snapshot.visible.left_items) in
    let right_keys = set (item_keys snapshot.visible.right_items) in
    do
      raise_if (not (set_eq (keys submitted) left_keys)) ServiceError.unmatched_items
      raise_if (not (set_eq (values submitted) right_keys) || not (all_distinct (values submitted)))
          ServiceError.reused_right_item
      ok (
          percentage (count (is_matched submitted snapshot.grading.matches) left_keys)
            (length left_keys))

unfoldable pub grade_matching : Gradable → Dict Text ResponseValue → Checked ℕ
unfolding grade_matches
grade_matching snapshot payload = elim (get_object payload (codes "matches")) [
  | none ↦ raised ServiceError.no_matches
  | some submitted ↦ grade_matches snapshot submitted
]

-- `{key: position for position, key in enumerate(order)}`
unfoldable pub positions_from : Dict Text ℕ → ℕ → List Text → Dict Text ℕ
positions_from d position [] = d
positions_from d position (k ∷ ks) = positions_from (put d k position) (position + 1) ks

-- `positions[first] < positions[second]`; both keys are there once the checks have passed.
unfoldable pub in_order : Dict Text ℕ → Text → Text → Bool
in_order positions first second = elim (get positions first) [
  | none ↦ false
  | some i ↦ elim (get positions second) [ none ↦ false | some j ↦ ltb i j ]
]

-- The inner loop, over the keys after the first one, on the two counters.
unfoldable pub count_after : Dict Text ℕ → Text → List Text → ℕ × ℕ → ℕ × ℕ
unfolding in_order
count_after positions first [] acc = acc
count_after positions first (second ∷ rest) (correct, total) =
    count_after positions first rest
      ((if in_order positions first second then correct + 1 else correct), total + 1)

-- The outer loop.
unfoldable pub count_pairs : Dict Text ℕ → List Text → ℕ × ℕ → ℕ × ℕ
unfolding count_after
count_pairs positions [] acc = acc
count_pairs positions (first ∷ rest) acc =
    count_pairs positions rest (count_after positions first rest acc)

-- The checks on a submitted order, and its score: the share of the pairs in the right order.
unfoldable pub grade_order : List Text → List Text → Checked ℕ
unfolding count_pairs positions_from
grade_order correct submitted = do
  raise_if (not (nat_beq (length submitted) (length correct)) || not (set_eq submitted correct))
      ServiceError.incomplete_order
  raise_if (not (all_distinct submitted)) ServiceError.repeated_item
  raise_if (ltb (length correct) 2) ServiceError.too_few_ordered
  let pairs = count_pairs (positions_from [] 0 submitted) correct (0, 0)
  ok (percentage pairs.0 pairs.1)

unfoldable pub grade_ordering : Gradable → Dict Text ResponseValue → Checked ℕ
unfolding grade_order
grade_ordering snapshot payload = elim (get_list payload (codes "order")) [
  | none ↦ raised ServiceError.no_order
  | some submitted ↦ grade_order snapshot.grading.correct_order submitted
]

unfoldable pub grade_line_selection : Gradable → Dict Text ResponseValue → Checked ℕ
unfolding get_selected_keys
grade_line_selection snapshot payload = do
  selected ← get_selected_keys payload (item_keys snapshot.visible.lines)
  ok (if set_eq selected snapshot.grading.correct_keys then hundred else 0)

unfoldable pub grade_by_type : QuestionType → Gradable → Dict Text ResponseValue → Checked ℕ
unfolding grade_choice grade_matching grade_ordering grade_line_selection
grade_by_type QuestionType.single_choice snapshot payload = grade_choice snapshot payload
grade_by_type QuestionType.multiple_choice snapshot payload = grade_choice snapshot payload
grade_by_type QuestionType.matching snapshot payload = grade_matching snapshot payload
grade_by_type QuestionType.ordering snapshot payload = grade_ordering snapshot payload
grade_by_type QuestionType.line_selection snapshot payload = grade_line_selection snapshot payload
grade_by_type QuestionType.other snapshot payload = raised ServiceError.unknown_question_type

unfoldable pub grade_snapshot_answer : Gradable → Response → Checked ℕ
unfolding grade_by_type
grade_snapshot_answer snapshot Response.not_an_object = raised ServiceError.malformed_response
grade_snapshot_answer snapshot (Response.fields payload) =
    grade_by_type snapshot.question_type snapshot payload
