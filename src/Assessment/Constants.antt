-- ===== src/Assessment/Constants.antt =====
-- assessment/constants.py, and what the services raise.
use ticket_sandbox.Prelude.{ℕ, Outcome, Bool, true, false, List}
use ticket_sandbox.Prelude.Text.{Text}

pub data SupportLevel : Type 0 where
  l1 l2 prime : SupportLevel

-- The stored text of a question's type; `other` is a text that is no member of the enumeration.
pub data QuestionType : Type 0 where
  single_choice multiple_choice matching ordering line_selection other : QuestionType

pub data QuestionStatus : Type 0 where
  draft active archived : QuestionStatus

pub data ExamAttemptStatus : Type 0 where
  in_progress completed invalidated : ExamAttemptStatus

-- One line of the message on a pool that is too small.
pub record Shortage : Type 0 where
  pub topic : Text
  pub skill : Text
  pub required_count : ℕ
  pub available_family_count : ℕ

-- One constructor for each message of a `ValidationError`.
pub data ServiceError : Type 0 where
  -- answer_grading.py
  no_selected_keys nothing_selected repeated_option unknown_option : ServiceError
  one_option_only no_matches unmatched_items reused_right_item : ServiceError
  no_order incomplete_order repeated_item too_few_ordered : ServiceError
  malformed_response unknown_question_type : ServiceError
  -- answers.py
  snapshot_missing attempt_not_active question_not_opened already_answered question_time_over :
      ServiceError
  -- question_validation.py
  two_options_needed options_repeat one_correct_needed two_correct_needed : ServiceError
  one_wrong_needed two_pairs_needed left_repeats right_repeats : ServiceError
  three_items_needed items_repeat two_lines_needed lines_repeat : ServiceError
  correct_line_needed wrong_line_needed : ServiceError
  -- attempts.py
  assignment_inactive employee_inactive level_mismatch campaign_inactive : ServiceError
  blueprint_inactive not_opened_yet campaign_closed attempts_used_up : ServiceError
  -- blueprint_validation.py
  no_quotas : ServiceError
  shortages : List Shortage → ServiceError
  -- question_selection.py: what `random` raises of a sample that is larger than its population, and
  -- of a choice from nothing
  sample_too_large empty_choice : ServiceError
  -- results.py
  attempt_invalidated result_missing no_questions : ServiceError
  unanswered_questions : ℕ → ℕ → ServiceError
  -- what the database raises of a unique column that is taken already
  integrity_error : ServiceError

abbrev pub Checked {ℓ} : Type ℓ → Type ℓ
Checked A = Outcome ServiceError A

unfoldable pub level_beq : SupportLevel → SupportLevel → Bool
level_beq SupportLevel.l1 SupportLevel.l1 = true
level_beq SupportLevel.l2 SupportLevel.l2 = true
level_beq SupportLevel.prime SupportLevel.prime = true
level_beq _ _ = false

unfoldable pub is_active_status : QuestionStatus → Bool
is_active_status QuestionStatus.active = true
is_active_status _ = false
