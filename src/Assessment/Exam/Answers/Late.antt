-- ===== src/Assessment/Exam/Answers/Late.antt =====
-- `submit_exam_answer` of assessment/services/answers.py after a question's deadline.
use ticket_sandbox.Prelude.{
  ℕ, ◌≤◌, ◌≡◌, refl, true, false, [], none, some, ok, raised, arith, if◌then◌else◌,
}
use ticket_sandbox.Assessment.Constants.{ServiceError, ExamAttemptStatus}
use ticket_sandbox.Assessment.Grading.{Response}
use ticket_sandbox.Assessment.Exam.Records.{
  Time, ExamAnswer, ExamQuestionSnapshot, ExamAttempt, is_in_progress, time_limit,
}
use ticket_sandbox.Assessment.Exam.Answers.{
  deadline, elapsed_seconds, timeout_answer, find_snapshot, with_answer, save_answer,
  submit_exam_answer,
}
use ticket_sandbox.Assessment.Exam.Answers.Saved.{find-update}

pub submit-timeout_answer :
    (attempt : ExamAttempt) (p : ℕ) (r : Response) (now t : Time) (s : ExamQuestionSnapshot)
    → attempt.status ≡ ExamAttemptStatus.in_progress
    → find_snapshot p attempt.question_snapshots ≡ some s
    → s.started_at ≡ some t
    → s.answer ≡ none
    → deadline s t ≤ now
    → submit_exam_answer attempt p r now
      ≡ ok (timeout_answer s t now, true, save_answer attempt p (timeout_answer s t now))
unfolding submit_exam_answer is_in_progress
submit-timeout_answer attempt p r now t s active found started fresh late = ground arith

-- A change after the deadline, by the reason that applies first.
change_refused :
    (attempt : ExamAttempt) (p : ℕ) (r : Response) (now t : Time) (s : ExamQuestionSnapshot)
    (a : ExamAnswer)
    → attempt.status ≡ ExamAttemptStatus.in_progress
    → find_snapshot p attempt.question_snapshots ≡ some s
    → s.started_at ≡ some t
    → s.answer ≡ some a
    → deadline s t ≤ now
    → submit_exam_answer attempt p r now
      ≡ raised (
          if attempt.allow_back_navigation
          then ServiceError.question_time_over
          else ServiceError.already_answered)
unfolding submit_exam_answer is_in_progress
change_refused attempt p r now t s a active found started answered late = ground arith

-- What a question that ran out of time keeps, whatever was sent.
pub record IsTimedOut (s : ExamQuestionSnapshot) (a : ExamAnswer) : Type 0 where
  pub marked : a.timed_out ≡ true
  pub no_score : a.score_percentage ≡ 0
  pub wrong : a.is_correct ≡ false
  pub emptied : a.response_payload ≡ Response.fields []
  -- the whole limit was used
  pub full_time : a.response_time_seconds ≡ time_limit s

elapsed-le :
    (s : ExamQuestionSnapshot) (t now : Time)
    → deadline s t ≤ now
    → (time_limit s) ≤ elapsed_seconds t now
elapsed-le s t now late = omega arith

timeout_answer-IsTimedOut :
    (s : ExamQuestionSnapshot) (t now : Time)
    → deadline s t ≤ now
    → IsTimedOut s (timeout_answer s t now)
timeout_answer-IsTimedOut s t now late = record {
  marked = refl;
  no_score = refl;
  wrong = refl;
  emptied = refl;
  full_time = omega (arith, elapsed-le s t now late);
}

-- In an attempt in progress, if the first submission to an opened question comes at its deadline or
-- later, then whatever it holds, a new answer is stored at the question, marked as timed out, with
-- score 0, not correct, with the empty response and the whole time limit as its time; and any
-- submission to the question at that time or later is then refused: because the time is over, or,
-- without the permission to go back, because the question is answered.
pub submit-late_final :
    (attempt : ExamAttempt) (p : ℕ) (r again : Response) (now later t : Time)
    (s : ExamQuestionSnapshot)
    → attempt.status ≡ ExamAttemptStatus.in_progress
    → find_snapshot p attempt.question_snapshots ≡ some s
    → s.started_at ≡ some t
    → s.answer ≡ none
    → deadline s t ≤ now
    → now ≤ later
    → (a : ExamAnswer) × (after : ExamAttempt) × (submit_exam_answer attempt p r now
        ≡ ok (a, true, after))
      × (find_snapshot p after.question_snapshots ≡ some (with_answer a s))
      × IsTimedOut s a
      × (submit_exam_answer after p again later
          ≡ raised (
              if attempt.allow_back_navigation
              then ServiceError.question_time_over
              else ServiceError.already_answered))
submit-late_final attempt p r again now later t s active found started fresh late next =
    let a = timeout_answer s t now in
    let after = save_answer attempt p a in
    let stored : find_snapshot p after.question_snapshots ≡ some (with_answer a s) =
      ground (arith, find-update p p (with_answer a) attempt.question_snapshots (λ s. refl)) in
    (
      a,
      after,
      submit-timeout_answer attempt p r now t s active found started fresh late,
      stored,
      timeout_answer-IsTimedOut s t now late,
      change_refused after p again later t (with_answer a s) a active stored started refl
          (omega arith),
    )
