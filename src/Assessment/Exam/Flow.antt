-- ===== src/Assessment/Exam/Flow.antt =====
-- assessment/services/question_flow.py: the question that an attempt is at.
pub mod Pass
pub mod Loop
pub mod Opened
use ticket_sandbox.Prelude.{
  ℕ, zero, suc, Bool, true, false, List, [], ◌∷◌, Option, none, some, Outcome, ok, raised, find,
  length, ltb, if◌then◌else◌,
}
use ticket_sandbox.Assessment.Constants.{Checked}
use ticket_sandbox.Assessment.Exam.Records.{
  Time, ExamQuestionSnapshot, ExamAttempt, ExamAnswer, is_in_progress,
}
use ticket_sandbox.Assessment.Exam.Answers.{
  no_response, deadline, update_snapshot, submit_exam_answer,
}

abbrev pub is_unanswered : ExamQuestionSnapshot → Bool
is_unanswered s = elim s.answer [ none ↦ true | some _ ↦ false ]

-- `_unanswered_snapshots(attempt).order_by("position").first()`
unfoldable pub get_current_question : ExamAttempt → Option ExamQuestionSnapshot
get_current_question attempt = find is_unanswered attempt.question_snapshots

unfoldable pub get_question_deadline : ExamQuestionSnapshot → Option Time
get_question_deadline s = elim s.started_at [ none ↦ none | some t ↦ some (deadline s t) ]

abbrev pub opened : Time → ExamQuestionSnapshot → ExamQuestionSnapshot
opened now s = record s { started_at = some now }

-- The loop of `open_current_question`; `none` means that the fuel ran out.
unfoldable pub open_loop :
    ℕ → ExamAttempt → Time → Option (Checked (Option ExamQuestionSnapshot × ExamAttempt))
unfolding get_current_question get_question_deadline
open_loop zero attempt now = none
open_loop (suc fuel) attempt now = elim (get_current_question attempt) [
  | none ↦ some (ok (none, attempt))
  | some s ↦ elim (get_question_deadline s) [
    | none ↦ some (
        ok (
          some (opened now s),
          record attempt {
            question_snapshots = update_snapshot s.position (opened now) attempt.question_snapshots;
          },
        ))
    | some due ↦ elim (ltb now due) [
      | true ↦ some (ok (some s, attempt))
      | false ↦ elim (submit_exam_answer attempt s.position no_response now) [
        | raised e ↦ some (raised e)
        | ok saved ↦ open_loop fuel saved.2 now
      ]
    ]
  ]
]

-- One round for each question, and one more to find that none is left.
unfoldable pub open_current_question :
    ExamAttempt → Time → Option (Checked (Option ExamQuestionSnapshot × ExamAttempt))
unfolding open_loop
open_current_question attempt now = elim (is_in_progress attempt.status) [
  | false ↦ some (ok (none, attempt))
  | true ↦ open_loop (suc (length attempt.question_snapshots)) attempt now
]
