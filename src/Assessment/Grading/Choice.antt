-- ===== src/Assessment/Grading/Choice.antt =====
-- `_grade_choice` and `_grade_line_selection` of assessment/services/answer_grading.py.
pub mod Refused
use ticket_sandbox.Prelude.{
  ◌≡◌, ◌↔◌, Bool, true, false, not, ◌&&◌, some, List, ok, length, is_empty, arith, nat_beq,
  Bool-cases, inl, inr,
}
use ticket_sandbox.Prelude.Sets.{
  contains, subset, set_eq, all_distinct, IsNodup, all_distinct-IsNodup, set_eq-contains,
  subset-contains, contains-subset,
}
use ticket_sandbox.Prelude.Dict.{Dict}
use ticket_sandbox.Prelude.Text.{Text, text_eq, codes}
use ticket_sandbox.Assessment.Constants.{QuestionType}
use ticket_sandbox.Assessment.Grading.{
  ResponseValue, Gradable, item_keys, get_list, is_single, grade_choice, grade_line_selection,
}
use ticket_sandbox.Assessment.Grading.Percentage.{hundred}

-- The same keys, in any order and however often.
abbrev pub SameKeys : List Text → List Text → Type 0
SameKeys xs ys = (k : Text) → (contains k xs ≡ true) ↔ (contains k ys ≡ true)

-- What `_get_selected_keys` accepts: some available keys, each once.
pub record IsSelection (available selected : List Text) : Type 0 where
  pub chosen : is_empty selected ≡ false
  pub distinct : IsNodup selected
  pub known : (k : Text) → contains k selected ≡ true → contains k available ≡ true

abbrev pub is_accepted : List Text → List Text → Bool
is_accepted available selected =
    not (is_empty selected) && (all_distinct selected && subset selected available)

pub is_accepted-IsSelection :
    (available selected : List Text)
    → (is_accepted available selected ≡ true) ↔ IsSelection available selected
is_accepted-IsSelection available selected = (
  λ h. record {
    chosen = ground arith;
    distinct = (all_distinct-IsNodup selected).0 (ground arith);
    known = λ k. subset-contains selected available k (ground arith);
  },
  λ v. ground (
    arith,
    v.chosen,
    (all_distinct-IsNodup selected).1 v.distinct,
    contains-subset selected available v.known,
  ),
)

module _ (s : Gradable) (payload : Dict Text ResponseValue) (selected : List Text)
    (given : get_list payload (codes "selected_keys") ≡ some selected) where
  abbrev options : List Text
  options = item_keys s.visible.options

  abbrev fits : Bool
  fits = not (is_single s.question_type && not (nat_beq (length selected) 1))

  choice_tests :
      (grade_choice s payload ≡ ok hundred)
      ↔ ((is_accepted options selected && (fits && set_eq selected s.grading.correct_keys)) ≡ true)
  unfolding grade_choice
  choice_tests = ground arith

  -- A choice scores 100.00 exactly when it names available options, each once, one only if the
  -- question is of single choice, and they are the right ones, in any order.
  pub grade_choice-hundred_iff : (grade_choice s payload ≡ ok hundred) ↔ (
      IsSelection (item_keys s.visible.options) selected
      × (s.question_type ≡ QuestionType.single_choice → length selected ≡ 1)
      × SameKeys selected s.grading.correct_keys)
  grade_choice-hundred_iff = (
    λ h. (
      (is_accepted-IsSelection options selected).0 (ground (arith, choice_tests.0 h)),
      λ t. ground (arith, choice_tests.0 h),
      (set_eq-contains selected s.grading.correct_keys).0 (ground (arith, choice_tests.0 h)),
    ),
    λ v. choice_tests.1 (
        ground (
          arith,
          (is_accepted-IsSelection options selected).1 v.0,
          v.1,
          (set_eq-contains selected s.grading.correct_keys).1 v.2,
        )),
  )

module _ (s : Gradable) (payload : Dict Text ResponseValue) (selected : List Text)
    (given : get_list payload (codes "selected_keys") ≡ some selected) where
  line_tests : (grade_line_selection s payload ≡ ok hundred) ↔ (
      (is_accepted (item_keys s.visible.lines) selected && set_eq selected s.grading.correct_keys)
      ≡ true)
  unfolding grade_line_selection
  line_tests = ground arith

  -- A line selection scores 100.00 exactly when it names shown lines, each once, and they are the
  -- right ones, in any order.
  pub grade_line_selection-hundred_iff : (grade_line_selection s payload ≡ ok hundred) ↔ (
      IsSelection (item_keys s.visible.lines) selected × SameKeys selected s.grading.correct_keys)
  grade_line_selection-hundred_iff = (
    λ h. (
      (is_accepted-IsSelection (item_keys s.visible.lines) selected).0
          (ground (arith, line_tests.0 h)),
      (set_eq-contains selected s.grading.correct_keys).0 (ground (arith, line_tests.0 h)),
    ),
    λ v. line_tests.1 (
        ground (
          arith,
          (is_accepted-IsSelection (item_keys s.visible.lines) selected).1 v.0,
          (set_eq-contains selected s.grading.correct_keys).1 v.1,
        )),
  )
