-- ===== src/Assessment/Exam/Life/Ended.antt =====
-- When `complete_exam_attempt` of assessment/services/results.py creates a result, in terms of
-- `get_current_question` of question_flow.py.
use ticket_sandbox.Prelude.{
  ◌≡◌, ◌<◌, ◌↔◌, refl, nat_eq, true, List, [], ◌∷◌, none, ok, length, count, arith,
}
use ticket_sandbox.Assessment.Constants.{ExamAttemptStatus}
use ticket_sandbox.Assessment.Exam.Records.{
  Time, ExamQuestionSnapshot, ExamAttempt, AssessmentResult,
}
use ticket_sandbox.Assessment.Exam.Flow.{is_unanswered, get_current_question}
use ticket_sandbox.Assessment.Exam.Flow.Loop.{current}
use ticket_sandbox.Assessment.Exam.Results.{complete_exam_attempt}
use ticket_sandbox.Assessment.Exam.Results.Completed.{
  complete-cases, complete-created, complete-no_result,
}
use ticket_sandbox.Assessment.Exam.Life.Completable.{length-answers_of}

current-none : (ss : List ExamQuestionSnapshot) → current ss ≡ none → count is_unanswered ss ≡ 0
current-none [] h = refl
current-none (s ∷ ss) h = ground (arith, current-none ss)

none-current : (ss : List ExamQuestionSnapshot) → count is_unanswered ss ≡ 0 → current ss ≡ none
none-current [] h = refl
none-current (s ∷ ss) h = ground (arith, none-current ss)

-- An attempt in progress is completed with a new result exactly if it has none yet, it has
-- questions, and no question of it is the current one.
pub complete-current_iff :
    (before : ExamAttempt) (now : Time)
    → before.status ≡ ExamAttemptStatus.in_progress
    → ((r : AssessmentResult) × (after : ExamAttempt) × (complete_exam_attempt before now
          ≡ ok (r, true, after)))
      ↔ ((before.result ≡ none)
          × (0 < length before.question_snapshots)
          × (get_current_question before ≡ none))
unfolding get_current_question
complete-current_iff before now active =
    let ss = before.question_snapshots in
    (
      λ (r, after, h).
          let (_, some_q, full, _, _) = complete-cases before now r after h in
          (
            complete-no_result before now r after h,
            some_q,
            none-current ss (omega (arith, full, length-answers_of ss)),
          ),
      λ (fresh, some_q, h). (
        _,
        _,
        complete-created before now active fresh some_q
            (omega (arith, current-none ss h, length-answers_of ss)),
      ),
    )
