-- ===== src/Assessment/Tests/Exam.antt =====
-- A run of an exam: it is started, and its questions are opened and answered.
use ticket_sandbox.Prelude.{
  ℕ, raised, nat_eq, ◌≡◌, ◌⊎◌, refl, true, false, [], ◌∷◌, Option, some, none, ok, arith,
}
use ticket_sandbox.Prelude.Sets.{IsNodup, contains, set, set_eq, subset, all_distinct}
use ticket_sandbox.Prelude.Text.{Text, text_eq, text_beq, codes, decimal}
use ticket_sandbox.Prelude.Dict.{get, put}
use ticket_sandbox.Assessment.Constants.{ServiceError, level_beq, is_active_status}
use ticket_sandbox.Assessment.Grading.{
  Response, ResponseValue, grade_snapshot_answer, grade_by_type, grade_choice, get_selected_keys,
  check_selected_keys, get_list,
}
use ticket_sandbox.Assessment.Grading.Percentage.{hundred}
use ticket_sandbox.Assessment.Blueprint.{
  is_eligible, pool, quota_status, get_blueprint_pool_status, find_shortages,
  validate_blueprint_question_pool,
}
use ticket_sandbox.Assessment.Selection.{
  select_questions_for_blueprint, select_for_quotas, select_for_quota, draw_sample,
  choose_questions, group_by_family, insert_sorted, sorted,
}
use ticket_sandbox.Assessment.Snapshot.{
  number_marked, build_common_snapshot_data, build_choice_payload, build_payloads,
  build_question_snapshot_data,
}
use ticket_sandbox.Assessment.Snapshot.Keys.{entry_key}
use ticket_sandbox.Assessment.Validation.{
  split_from, join, normalize_text, prepared, check_correct_count, validate_answer_configuration,
}
use ticket_sandbox.Assessment.Exam.Records.{
  ExamAnswer, ExamQuestionSnapshot, ExamAttempt, is_in_progress,
}
use ticket_sandbox.Assessment.Exam.Answers.{
  find_snapshot, submit_exam_answer, answer_snapshot, answer_opened, first_answer, save_answer,
  timeout_answer, with_answer,
}
use ticket_sandbox.Assessment.Exam.Answers.Saved.{IsSubmitted, submit-IsSubmitted}
use ticket_sandbox.Assessment.Exam.Answers.Late.{IsTimedOut, submit-late_final}
use ticket_sandbox.Assessment.Exam.Flow.{
  open_current_question, open_loop, get_current_question, get_question_deadline, opened,
}
use ticket_sandbox.Assessment.Exam.Flow.Loop.{positions}
use ticket_sandbox.Assessment.Exam.Flow.Opened.{IsOpened, open_current_question-IsOpened}
use ticket_sandbox.Assessment.Exam.Attempts.{
  start_exam_attempt, create_attempt, create_snapshots, new_attempt, highest,
  validate_assignment_for_start,
}
use ticket_sandbox.Assessment.Exam.Attempts.Started.{IsStarted, start_exam_attempt-IsStarted}
use ticket_sandbox.Assessment.Tests.Generator.{drawn_in_order, drawn_in_order-IsRandom}
use ticket_sandbox.Assessment.Tests.Samples.{question, snapshot_data, assignment}

abbrev pub as_is : Text → Text
as_is t = t

-- A new attempt on two questions, and the same with the first one opened at time 0.
abbrev pub fresh : ℕ → ExamQuestionSnapshot
fresh p = record { position = p; fields = snapshot_data; started_at = none; answer = none }

abbrev pub started : ExamAttempt
started = new_attempt assignment (codes "s") (fresh 1 ∷ [])

abbrev running : ExamAttempt
running = new_attempt assignment (codes "s") (opened 0 (fresh 1) ∷ fresh 2 ∷ [])

pub start :
    start_exam_attempt as_is drawn_in_order
      (codes "t")
      (question ∷ [])
      assignment
      (some (codes "s"))
      6
    ≡ ok (started, true, record assignment { attempts = started ∷ [] })
unfolding start_exam_attempt create_attempt create_snapshots highest validate_assignment_for_start
    select_questions_for_blueprint select_for_quotas select_for_quota draw_sample choose_questions
    group_by_family insert_sorted sorted validate_blueprint_question_pool get_blueprint_pool_status
    quota_status find_shortages pool is_eligible level_beq is_active_status set contains get put
    build_question_snapshot_data build_payloads build_choice_payload number_marked entry_key
    validate_answer_configuration check_correct_count prepared normalize_text split_from join
    all_distinct text_beq decimal
start = refl

start_exam_attempt-IsStarted_example :
    ((true ≡ true)
      × IsStarted
          (question ∷ [])
          assignment
          (record assignment { attempts = started ∷ [] })
          started)
    ⊎ ((true ≡ false)
        × ((record assignment { attempts = started ∷ [] }) ≡ assignment)
        × (is_in_progress started.status ≡ true))
start_exam_attempt-IsStarted_example =
    start_exam_attempt-IsStarted as_is drawn_in_order (codes "t") drawn_in_order-IsRandom
      (question ∷ []) assignment (some (codes "s")) 6 started true
      (record assignment { attempts = started ∷ [] }) start

-- The first question is over, the second is opened.
open_second :
    open_current_question running 61000000
    ≡ some (
        ok (
          some (opened 61000000 (fresh 2)),
          record running {
            question_snapshots =
                with_answer (timeout_answer (opened 0 (fresh 1)) 0 61000000) (opened 0 (fresh 1))
                ∷ opened 61000000 (fresh 2)
                ∷ [];
          },
        ))
unfolding open_current_question open_loop get_current_question get_question_deadline
    submit_exam_answer answer_snapshot answer_opened first_answer is_in_progress new_attempt
    build_common_snapshot_data
open_second = refl

running-positions : IsNodup (positions running.question_snapshots)
unfolding new_attempt contains
running-positions = (refl, (refl, tt))

open_current_question-IsOpened_example :
    (q : Option ExamQuestionSnapshot) × (after : ExamAttempt) × (open_current_question running
        61000000
      ≡ some (ok (q, after)))
    × IsOpened 61000000 running after q
unfolding new_attempt
open_current_question-IsOpened_example =
    open_current_question-IsOpened running 61000000 refl running-positions

abbrev pub right : Response
right = Response.fields ((codes "selected_keys", ResponseValue.list (codes "option-1" ∷ [])) ∷ [])

abbrev pub answer : ExamAnswer
answer = record {
  response_payload = right;
  score_percentage = hundred;
  is_correct = true;
  timed_out = false;
  response_time_seconds = 20;
}

submit :
    submit_exam_answer running 1 right 20500000 ≡ ok (answer, true, save_answer running 1 answer)
unfolding submit_exam_answer answer_snapshot answer_opened first_answer is_in_progress new_attempt
    build_common_snapshot_data grade_snapshot_answer grade_by_type grade_choice get_selected_keys
    check_selected_keys get_list get set_eq subset contains all_distinct text_beq
submit = refl

submit-IsSubmitted_example : IsSubmitted running (save_answer running 1 answer) 1 answer
submit-IsSubmitted_example =
    submit-IsSubmitted running 1 right 20500000 answer true (save_answer running 1 answer) submit

submit-late_final_example :
    (a : ExamAnswer) × (after : ExamAttempt) × (submit_exam_answer running 1 right 60000000
      ≡ ok (a, true, after))
    × (find_snapshot 1 after.question_snapshots ≡ some (with_answer a (opened 0 (fresh 1))))
    × IsTimedOut (opened 0 (fresh 1)) a
    × (submit_exam_answer after 1 right 61000000 ≡ raised ServiceError.question_time_over)
unfolding new_attempt build_common_snapshot_data
submit-late_final_example =
    submit-late_final running 1 right right 60000000 61000000 0 (opened 0 (fresh 1)) refl refl refl
      refl (omega arith) (omega arith)
