-- ===== src/Assessment/Exam/Life.antt =====
-- The operations that requests call on an attempt, as steps.
pub mod Kept
pub mod Reached
pub mod Reported
pub mod Completable
pub mod Ended
use ticket_sandbox.Prelude.{ℕ, ◌≤◌, ◌≡◌, Bool, Option, some, ok}
use ticket_sandbox.Assessment.Grading.{Response}
use ticket_sandbox.Assessment.Exam.Records.{
  Time, ExamAnswer, ExamQuestionSnapshot, ExamAttempt, AssessmentResult,
}
use ticket_sandbox.Assessment.Exam.Answers.{submit_exam_answer}
use ticket_sandbox.Assessment.Exam.Flow.{open_current_question}
use ticket_sandbox.Assessment.Exam.Results.{complete_exam_attempt}

-- One call that returns; a call that raises leaves the attempt as it was.
pub data Step (x y : ExamAttempt) : Type 0 where
  submitted :
      (position : ℕ) (response : Response) (now : Time) (a : ExamAnswer) (new : Bool)
      → submit_exam_answer x position response now ≡ ok (a, new, y)
      → Step x y
  went_on :
      (now : Time) (q : Option ExamQuestionSnapshot)
      → open_current_question x now ≡ some (ok (q, y))
      → Step x y
  finished :
      (now : Time) (r : AssessmentResult) (created : Bool)
      → complete_exam_attempt x now ≡ ok (r, created, y)
      → Step x y

-- Any number of steps.
pub data Steps (x : ExamAttempt) : ExamAttempt → Type 0 where
  none_yet : Steps x x
  one_more : {y z : ExamAttempt} → Steps x y → Step y z → Steps x z

-- When a call is made.
abbrev pub called_at : {x y : ExamAttempt} → Step x y → Time
called_at (submitted position response now a new h) = now
called_at (went_on now q h) = now
called_at (finished now r created h) = now

-- Calls in the order of their times, none before `from`.
pub data StepsFrom : Time → ExamAttempt → ExamAttempt → Type 0 where
  stop : {from : Time} {x : ExamAttempt} → StepsFrom from x x
  call :
      {from : Time} {x y z : ExamAttempt} (s : Step x y)
      → from ≤ called_at s
      → StepsFrom (called_at s) y z
      → StepsFrom from x z
