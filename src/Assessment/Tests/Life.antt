-- ===== src/Assessment/Tests/Life.antt =====
-- The run from the start to the result, as steps.
use ticket_sandbox.Prelude.{nat_eq, ◌≡◌, refl, true, false, [], ◌∷◌, some, arith}
use ticket_sandbox.Prelude.Sets.{contains, set_eq, subset, all_distinct}
use ticket_sandbox.Prelude.Text.{text_eq, text_beq, codes}
use ticket_sandbox.Prelude.Dict.{get}
use ticket_sandbox.Assessment.Grading.{
  grade_snapshot_answer, grade_by_type, grade_choice, get_selected_keys, check_selected_keys,
  get_list,
}
use ticket_sandbox.Assessment.Snapshot.{build_common_snapshot_data}
use ticket_sandbox.Assessment.Exam.Records.{ExamAttempt, AssessmentResult, is_in_progress}
use ticket_sandbox.Assessment.Exam.Answers.{
  submit_exam_answer, answer_snapshot, answer_opened, first_answer, with_answer,
}
use ticket_sandbox.Assessment.Exam.Flow.{
  open_current_question, open_loop, get_current_question, get_question_deadline, opened,
}
use ticket_sandbox.Assessment.Exam.Results.{
  answers_of, build_result, complete_exam_attempt, finish_attempt, existing_result,
}
use ticket_sandbox.Assessment.Exam.Results.Completed.{completed_by}
use ticket_sandbox.Assessment.Exam.Attempts.{new_attempt}
use ticket_sandbox.Assessment.Exam.Life.{
  Step, submitted, went_on, finished, Steps, none_yet, one_more,
}
use ticket_sandbox.Assessment.Exam.Life.Reached.{
  IsValid, IsSameExam, Steps-IsValid, Steps-completed,
}
use ticket_sandbox.Assessment.Exam.Life.Reported.{IsReported, started-IsReported}
use ticket_sandbox.Assessment.Exam.Life.Completable.{IsCompletable, running-IsCompletable}
use ticket_sandbox.Assessment.Tests.Generator.{drawn_in_order, drawn_in_order-IsRandom}
use ticket_sandbox.Assessment.Tests.Samples.{question, assignment}
use ticket_sandbox.Assessment.Tests.Exam.{as_is, fresh, started, right, answer, start}

abbrev shown : ExamAttempt
shown = record started { question_snapshots = opened 10 (fresh 1) ∷ [] }

abbrev replied : ExamAttempt
replied = record started { question_snapshots = with_answer answer (opened 10 (fresh 1)) ∷ [] }

abbrev result : AssessmentResult
result = build_result 75 1 (answers_of replied.question_snapshots)

abbrev over : ExamAttempt
over = completed_by replied 30000000 result

show : Step started shown
unfolding open_current_question open_loop get_current_question get_question_deadline is_in_progress
    new_attempt
show = went_on 10 (some (opened 10 (fresh 1))) refl

reply : Step shown replied
unfolding submit_exam_answer answer_snapshot answer_opened first_answer is_in_progress new_attempt
    build_common_snapshot_data grade_snapshot_answer grade_by_type grade_choice get_selected_keys
    check_selected_keys get_list get set_eq subset contains all_distinct text_beq
reply = submitted 1 right 20500010 answer true refl

finish : Step replied over
unfolding complete_exam_attempt finish_attempt answers_of new_attempt
finish = finished 30000000 result true refl

started-over : Steps started over
started-over = one_more (one_more (one_more none_yet show) reply) finish

started-IsReported_example : IsReported over result × IsSameExam started over
started-IsReported_example =
    started-IsReported as_is drawn_in_order (codes "t") drawn_in_order-IsRandom (question ∷ [])
      assignment (some (codes "s")) 6 started (record assignment { attempts = started ∷ [] }) over
      result start started-over refl

again : Step over over
unfolding complete_exam_attempt existing_result
again = finished 40000000 result false refl

Steps-completed_example : over ≡ over
Steps-completed_example = Steps-completed over over refl (one_more none_yet again)

started-IsValid : IsValid started
unfolding new_attempt contains
started-IsValid = record {
  sound = (λ a e. ground arith, tt);
  distinct = (refl, tt);
  final = λ r e. ground arith;
  known = λ e. ground arith;
}

Steps-IsValid_example : IsValid over × IsSameExam started over
Steps-IsValid_example = Steps-IsValid started over started-over started-IsValid

running-IsCompletable_example : IsCompletable 7 started
unfolding new_attempt
running-IsCompletable_example = running-IsCompletable 7 started started-IsValid refl (omega arith)
