-- ===== src/Assessment/Tests/Questions.antt =====
-- Runs of the validation, the snapshot and the selection.
use ticket_sandbox.Prelude.{
  ◌≡◌, ◌↔◌, ◌≤◌, ◌<◌, refl, true, false, List, [], ◌∷◌, ok, length, map, any, all,
}
use ticket_sandbox.Prelude.Sets.{IsNodup, all_distinct, contains, set}
use ticket_sandbox.Prelude.Text.{Text, text_eq, text_beq, codes, decimal}
use ticket_sandbox.Assessment.Constants.{QuestionType, level_beq, is_active_status}
use ticket_sandbox.Assessment.Questions.{Question}
use ticket_sandbox.Assessment.Grading.{Response, grade_snapshot_answer}
use ticket_sandbox.Assessment.Grading.Percentage.{hundred}
use ticket_sandbox.Assessment.Validation.{
  PairText, split_from, join, normalize_text, prepared, prepared_pairs, correct_count,
  check_correct_count, validate_answer_configuration, validate_matching_configuration,
  validate_line_selection_configuration, validate_ordering_configuration,
}
use ticket_sandbox.Assessment.Validation.Accepted.{
  RightCount, validate_answer_configuration_iff, validate_matching_configuration_iff,
  validate_line_selection_configuration_iff, prepared_items, validate_ordering_configuration_iff,
}
use ticket_sandbox.Assessment.Blueprint.{
  question_count, is_eligible, pool, quota_status, get_blueprint_pool_status, find_shortages,
  validate_blueprint_question_pool,
}
use ticket_sandbox.Assessment.Selection.{select_questions_for_blueprint}
use ticket_sandbox.Assessment.Selection.Drawn.{select-total}
use ticket_sandbox.Assessment.Snapshot.{
  gradable, number_marked, build_common_snapshot_data, no_visible, no_grading, build_choice_payload,
  build_payloads, build_question_snapshot_data,
}
use ticket_sandbox.Assessment.Snapshot.Keys.{entry_key}
use ticket_sandbox.Assessment.Snapshot.Graded.{key_response}
use ticket_sandbox.Assessment.Snapshot.RoundTrip.{snapshot-answerable}
use ticket_sandbox.Assessment.Tests.Generator.{drawn_in_order, drawn_in_order-IsRandom}
use ticket_sandbox.Assessment.Tests.Samples.{question, snapshot_data, blueprint}

-- Texts without capitals are their own case folding.
abbrev as_is : Text → Text
as_is t = t

normalize_text-spaces : normalize_text (codes "  a \t b ") ≡ codes "a b"
unfolding normalize_text split_from join
normalize_text-spaces = refl

build-question :
    build_question_snapshot_data as_is drawn_in_order question (codes "s") true ≡ ok snapshot_data
unfolding build_question_snapshot_data build_payloads build_choice_payload number_marked entry_key
    validate_answer_configuration check_correct_count prepared normalize_text split_from join
    all_distinct contains text_beq decimal
build-question = refl

snapshot-answerable_example :
    grade_snapshot_answer
      (gradable snapshot_data)
      (Response.fields (key_response QuestionType.single_choice snapshot_data.payloads))
    ≡ ok hundred
unfolding normalize_text split_from join build_common_snapshot_data
snapshot-answerable_example =
    snapshot-answerable as_is drawn_in_order drawn_in_order-IsRandom question (codes "s") true
      snapshot_data (λ e. (refl, (refl, tt))) build-question

validate_answer_configuration_example :
    (validate_answer_configuration as_is QuestionType.single_choice question.answer_options ≡ ok tt)
    ↔ ((2 ≤ length (prepared question.answer_options))
        × IsNodup (map (λ o. as_is o.text) (prepared question.answer_options))
        × RightCount QuestionType.single_choice
            (correct_count (prepared question.answer_options))
            (length (prepared question.answer_options)))
validate_answer_configuration_example =
    validate_answer_configuration_iff as_is QuestionType.single_choice question.answer_options

abbrev pairs : List PairText
pairs =
    record { left_text = codes "ls"; right_text = codes "list" }
    ∷ record { left_text = codes "rm"; right_text = codes "remove" }
    ∷ []

validate_matching_configuration_example : (validate_matching_configuration as_is pairs ≡ ok tt) ↔ (
    (2 ≤ length (prepared_pairs pairs))
    × IsNodup (map (λ p. as_is p.left_text) (prepared_pairs pairs))
    × IsNodup (map (λ p. as_is p.right_text) (prepared_pairs pairs)))
validate_matching_configuration_example = validate_matching_configuration_iff as_is pairs

validate_line_selection_configuration_example :
    (validate_line_selection_configuration as_is question.answer_options ≡ ok tt) ↔ (
      (2 ≤ length (prepared question.answer_options))
      × IsNodup (map (λ l. as_is l.text) (prepared question.answer_options))
      × (0 < correct_count (prepared question.answer_options))
      × (correct_count (prepared question.answer_options)
          < length (prepared question.answer_options)))
validate_line_selection_configuration_example =
    validate_line_selection_configuration_iff as_is question.answer_options

pool-valid :
    validate_blueprint_question_pool (question ∷ []) blueprint
    ≡ ok (get_blueprint_pool_status (question ∷ []) blueprint)
unfolding validate_blueprint_question_pool get_blueprint_pool_status quota_status find_shortages
    pool is_eligible level_beq is_active_status set contains
pool-valid = refl

select-total_example :
    (qs : List Question) × (select_questions_for_blueprint drawn_in_order
        (question ∷ [])
        blueprint
        (codes "s")
      ≡ ok qs)
    × (length qs ≡ question_count blueprint)
    × (all (λ q. any (λ quota. is_eligible blueprint.level quota.skill q) blueprint.skill_quotas) qs
        ≡ true)
select-total_example =
    select-total drawn_in_order drawn_in_order-IsRandom (question ∷ []) blueprint (codes "s")
      (get_blueprint_pool_status (question ∷ []) blueprint) pool-valid

-- A third option, blank and marked as correct, is not counted by the validation, and is a key.
abbrev blank_option : Question
blank_option = record question {
  answer_options =
      record { text = codes "df"; is_correct = true }
      ∷ record { text = codes "ls"; is_correct = false }
      ∷ record { text = []; is_correct = true }
      ∷ [];
}

blank_option-keys :
    build_choice_payload as_is drawn_in_order blank_option tt false
    ≡ ok (record {
      visible = record no_visible {
        options =
            record { key = codes "option-1"; text = codes "df" }
            ∷ record { key = codes "option-2"; text = codes "ls" }
            ∷ record { key = codes "option-3"; text = [] }
            ∷ [];
      };
      grading = record no_grading { correct_keys = codes "option-1" ∷ codes "option-3" ∷ [] };
    })
unfolding build_choice_payload number_marked entry_key validate_answer_configuration
    check_correct_count prepared normalize_text split_from join all_distinct contains text_beq
    decimal
blank_option-keys = refl

abbrev steps : List Text
steps = codes "stop" ∷ codes " " ∷ codes "copy" ∷ codes "start" ∷ []

validate_ordering_configuration_example :
    (validate_ordering_configuration as_is steps ≡ ok tt)
    ↔ ((3 ≤ length (prepared_items steps)) × IsNodup (map as_is (prepared_items steps)))
validate_ordering_configuration_example = validate_ordering_configuration_iff as_is steps
