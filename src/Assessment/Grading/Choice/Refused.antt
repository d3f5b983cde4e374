-- ===== src/Assessment/Grading/Choice/Refused.antt =====
-- Which responses `_grade_choice` of assessment/services/answer_grading.py refuses.
use ticket_sandbox.Prelude.{
  ◌≡◌, ◌⊎◌, Bool, true, false, not, ◌&&◌, List, some, ok, raised, length, is_empty, nat_beq, arith,
  Bool-cases, Option-cases, inl, inr,
}
use ticket_sandbox.Prelude.Dict.{Dict}
use ticket_sandbox.Prelude.Sets.{set_eq, all_distinct, subset}
use ticket_sandbox.Prelude.Text.{Text, text_eq, codes}
use ticket_sandbox.Assessment.Constants.{QuestionType, ServiceError}
use ticket_sandbox.Assessment.Grading.{
  ResponseValue, Gradable, item_keys, get_list, is_single, get_selected_keys, check_selected_keys,
  grade_choice,
}
use ticket_sandbox.Assessment.Grading.Percentage.{hundred}
use ticket_sandbox.Assessment.Grading.Choice.{IsSelection, is_accepted, is_accepted-IsSelection}

-- A response that can be graded as a choice: under `selected_keys` it has a list of available
-- options, each once, and one only if the question is of single choice.
pub record IsChoice (s : Gradable) (payload : Dict Text ResponseValue) : Type 0 where
  pub selected : List Text
  pub given : get_list payload (codes "selected_keys") ≡ some selected
  pub selection : IsSelection (item_keys s.visible.options) selected
  pub single : s.question_type ≡ QuestionType.single_choice → length selected ≡ 1

abbrev is_choice : Gradable → List Text → Bool
is_choice s selected =
    is_accepted (item_keys s.visible.options) selected
    && not (is_single s.question_type && not (nat_beq (length selected) 1))

is_choice-IsChoice :
    (s : Gradable) (payload : Dict Text ResponseValue) (selected : List Text)
    → get_list payload (codes "selected_keys") ≡ some selected
    → is_choice s selected ≡ true
    → IsChoice s payload
is_choice-IsChoice s payload selected given h = record {
  selected = selected;
  given = given;
  selection = (is_accepted-IsSelection (item_keys s.visible.options) selected).0 (ground arith);
  single = λ t. ground arith;
}

IsChoice-is_choice :
    (s : Gradable) (payload : Dict Text ResponseValue) (selected : List Text)
    → get_list payload (codes "selected_keys") ≡ some selected
    → IsChoice s payload
    → is_choice s selected ≡ true
IsChoice-is_choice s payload selected given v =
    let same : v.selected ≡ selected = ground (arith, v.given) in
    rw (← same) (
      ground (
        arith,
        (is_accepted-IsSelection (item_keys s.visible.options) v.selected).1 v.selection,
        v.single,
      ))

graded_choice :
    (s : Gradable) (payload : Dict Text ResponseValue) (selected : List Text)
    → get_list payload (codes "selected_keys") ≡ some selected
    → is_choice s selected ≡ true
    → (grade_choice s payload ≡ ok hundred) ⊎ (grade_choice s payload ≡ ok 0)
unfolding grade_choice get_selected_keys check_selected_keys
graded_choice s payload selected given h =
    elim (Bool-cases (set_eq selected s.grading.correct_keys)) [
      | inl same ↦ inl (ground arith)
      | inr other ↦ inr (ground arith)
    ]

refused_choice :
    (s : Gradable) (payload : Dict Text ResponseValue) (selected : List Text)
    → get_list payload (codes "selected_keys") ≡ some selected
    → is_choice s selected ≡ false
    → (e : ServiceError) × (grade_choice s payload ≡ raised e)
unfolding grade_choice get_selected_keys check_selected_keys
refused_choice s payload selected given h = elim (Bool-cases (is_empty selected)) [
  | inl empty ↦ (ServiceError.nothing_selected, ground arith)
  | inr chosen ↦ elim (Bool-cases (all_distinct selected)) [
    | inr repeats ↦ (ServiceError.repeated_option, ground arith)
    | inl distinct ↦ elim (Bool-cases (subset selected (item_keys s.visible.options))) [
      | inr unknown ↦ (ServiceError.unknown_option, ground arith)
      | inl known ↦ (ServiceError.one_option_only, ground arith)
    ]
  ]
]

-- Every response to a choice question is graded or refused: it scores 100.00 or 0 if it has a list of
-- available options, each once, and one only for a single choice; any other response raises.
pub grade_choice_cases :
    (s : Gradable) (payload : Dict Text ResponseValue)
    → (IsChoice s payload
        × ((grade_choice s payload ≡ ok hundred) ⊎ (grade_choice s payload ≡ ok 0)))
      ⊎ ((¬ IsChoice s payload) × ((e : ServiceError) × (grade_choice s payload ≡ raised e)))
unfolding grade_choice get_selected_keys
grade_choice_cases s payload = elim (Option-cases (get_list payload (codes "selected_keys"))) [
  | inl missing ↦
      inr (λ v. let g = v.given in ground arith, (ServiceError.no_selected_keys, ground arith))
  | inr (selected, given) ↦ elim (Bool-cases (is_choice s selected)) [
    | inl fits ↦ inl (
      is_choice-IsChoice s payload selected given fits,
      graded_choice s payload selected given fits,
    )
    | inr unfit ↦ inr (
      λ v. let h = IsChoice-is_choice s payload selected given v in ground arith,
      refused_choice s payload selected given unfit,
    )
  ]
]
