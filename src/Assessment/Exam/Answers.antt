-- ===== src/Assessment/Exam/Answers.antt =====
-- assessment/services/answers.py. The row of a snapshot is found by its position. The new attempt
-- comes back beside the answer.
pub mod Saved
pub mod Late
use ticket_sandbox.Prelude.{
  ℕ, ◌+◌, ◌-◌, ◌/◌, Bool, true, false, not, ◌&&◌, List, [], ◌∷◌, Option, none, some, Outcome, ok,
  raised, ◌>>=◌, ◌>>◌, raise_if, find, leb, nat_beq, min, if◌then◌else◌,
}
use ticket_sandbox.Assessment.Constants.{ServiceError, Checked}
use ticket_sandbox.Assessment.Grading.{Response, grade_snapshot_answer}
use ticket_sandbox.Assessment.Grading.Percentage.{hundred}
use ticket_sandbox.Assessment.Exam.Records.{
  Time, ExamAnswer, ExamQuestionSnapshot, ExamAttempt, is_in_progress, seconds, time_limit,
  snapshot_gradable,
}

-- `max(0, int((now - started_at).total_seconds()))`
abbrev pub elapsed_seconds : Time → Time → ℕ
elapsed_seconds started now = (now - started) / 1000000

-- The deadline of a question that was opened at `started`.
abbrev pub deadline : ExamQuestionSnapshot → Time → Time
deadline s started = started + seconds (time_limit s)

-- The payload `{}`.
abbrev pub no_response : Response
no_response = Response.fields []

-- The branch on an existing answer.
unfoldable pub change_answer :
    Bool → ExamQuestionSnapshot → Time → Response → Time → Checked ExamAnswer
change_answer allow_back s started response now = do
  raise_if (not allow_back) ServiceError.already_answered
  raise_if (leb (deadline s started) now) ServiceError.question_time_over
  score ← grade_snapshot_answer (snapshot_gradable s) response
  ok (record {
    response_payload = response;
    score_percentage = score;
    is_correct = nat_beq score hundred;
    timed_out = false;
    response_time_seconds = elapsed_seconds started now;
  })

-- What a first answer that is too late is stored as.
abbrev pub timeout_answer : ExamQuestionSnapshot → Time → Time → ExamAnswer
timeout_answer s started now = record {
  response_payload = no_response;
  score_percentage = 0;
  is_correct = false;
  timed_out = true;
  response_time_seconds = min (elapsed_seconds started now) (time_limit s);
}

-- The branch on a first answer.
unfoldable pub first_answer : ExamQuestionSnapshot → Time → Response → Time → Checked ExamAnswer
first_answer s started response now =
    if leb (deadline s started) now
    then ok (timeout_answer s started now)
    else (grade_snapshot_answer (snapshot_gradable s) response >>= λ score. ok (record {
      response_payload = response;
      score_percentage = score;
      is_correct = nat_beq score hundred;
      timed_out = false;
      response_time_seconds = min (elapsed_seconds started now) (time_limit s);
    }))

-- The answer to store, and whether it is a new row.
unfoldable pub answer_opened :
    Bool → ExamQuestionSnapshot → Time → Response → Time → Checked (ExamAnswer × Bool)
unfolding change_answer first_answer
answer_opened allow_back s started response now = elim s.answer [
  | some old ↦ change_answer allow_back s started response now >>= λ a. ok (a, false)
  | none ↦ first_answer s started response now >>= λ a. ok (a, true)
]

unfoldable pub answer_snapshot :
    Bool → ExamQuestionSnapshot → Response → Time → Checked (ExamAnswer × Bool)
unfolding answer_opened
answer_snapshot allow_back s response now = elim s.started_at [
  | none ↦ raised ServiceError.question_not_opened
  | some started ↦ answer_opened allow_back s started response now
]

abbrev pub find_snapshot : ℕ → List ExamQuestionSnapshot → Option ExamQuestionSnapshot
find_snapshot position ss = find (λ s. nat_beq s.position position) ss

-- The row of the snapshot at a position, changed.
abbrev pub update_snapshot :
    ℕ
    → (ExamQuestionSnapshot → ExamQuestionSnapshot)
    → List ExamQuestionSnapshot
    → List ExamQuestionSnapshot
update_snapshot position f [] = []
update_snapshot position f (s ∷ ss) =
    if nat_beq s.position position then f s ∷ ss else s ∷ update_snapshot position f ss

abbrev pub with_answer : ExamAnswer → ExamQuestionSnapshot → ExamQuestionSnapshot
with_answer a s = record s { answer = some a }

abbrev pub save_answer : ExamAttempt → ℕ → ExamAnswer → ExamAttempt
save_answer attempt position a = record attempt {
  question_snapshots = update_snapshot position (with_answer a) attempt.question_snapshots;
}

-- `submit_exam_answer`
unfoldable pub submit_exam_answer :
    ExamAttempt → ℕ → Response → Time → Checked (ExamAnswer × Bool × ExamAttempt)
unfolding answer_snapshot
submit_exam_answer attempt position response now =
    elim (find_snapshot position attempt.question_snapshots) [
      | none ↦ raised ServiceError.snapshot_missing
      | some s ↦
          raise_if (not (is_in_progress attempt.status)) ServiceError.attempt_not_active
          >> (answer_snapshot attempt.allow_back_navigation s response now >>= λ saved.
              ok (saved.0, saved.1, save_answer attempt position saved.0))
    ]
