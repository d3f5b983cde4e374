-- ===== src/Assessment/Exam/Answers/Saved.antt =====
-- `submit_exam_answer` of assessment/services/answers.py: the answer, and the attempt that holds it.
use ticket_sandbox.Prelude.{
  ℕ, ◌≤◌, ◌≡◌, ◌≢◌, refl, Bool, true, List, [], ◌∷◌, none, some, ok, nat_beq, arith, Option-cases,
  inl, inr, if◌then◌else◌,
}
use ticket_sandbox.Assessment.Constants.{ExamAttemptStatus}
use ticket_sandbox.Assessment.Grading.{Response}
use ticket_sandbox.Assessment.Grading.Percentage.{hundred}
use ticket_sandbox.Assessment.Grading.Bounds.{grade_snapshot_answer-le-hundred}
use ticket_sandbox.Assessment.Exam.Records.{
  Time, ExamAnswer, ExamQuestionSnapshot, ExamAttempt, is_in_progress, time_limit,
  snapshot_gradable,
}
use ticket_sandbox.Assessment.Exam.Answers.{
  change_answer, first_answer, answer_opened, answer_snapshot, find_snapshot, update_snapshot,
  with_answer, save_answer, submit_exam_answer,
}

-- A stored answer: its score is a percentage, it counts as correct exactly at 100.00, a late one
-- scores nothing, and its time is within the question's limit.
pub record IsSound (s : ExamQuestionSnapshot) (a : ExamAnswer) : Type 0 where
  pub bounded : a.score_percentage ≤ hundred
  pub marked : a.is_correct ≡ nat_beq a.score_percentage hundred
  pub late : a.timed_out ≡ true → a.score_percentage ≡ 0
  pub in_time : a.response_time_seconds ≤ time_limit s

change_answer-IsSound :
    (b : Bool) (s : ExamQuestionSnapshot) (t : Time) (r : Response) (now : Time) {a : ExamAnswer}
    → change_answer b s t r now ≡ ok a
    → IsSound s a
unfolding change_answer
change_answer-IsSound b s t r now h =
    let bound = λ (q : ℕ). grade_snapshot_answer-le-hundred (snapshot_gradable s) r {q = q} in
    grind (arith, bound)

first_answer-IsSound :
    (s : ExamQuestionSnapshot) (t : Time) (r : Response) (now : Time) {a : ExamAnswer}
    → first_answer s t r now ≡ ok a
    → IsSound s a
unfolding first_answer
first_answer-IsSound s t r now h =
    let bound = λ (q : ℕ). grade_snapshot_answer-le-hundred (snapshot_gradable s) r {q = q} in
    grind (arith, bound)

answer_snapshot-IsSound :
    (b : Bool) (s : ExamQuestionSnapshot) (r : Response) (now : Time) {a : ExamAnswer} {new : Bool}
    → answer_snapshot b s r now ≡ ok (a, new)
    → IsSound s a
unfolding answer_snapshot answer_opened
answer_snapshot-IsSound b s r now {a} {new} h = elim (Option-cases s.started_at) [
  | inl closed ↦ ground arith
  | inr (t, e) ↦ elim (Option-cases s.answer) [
    | inl fresh ↦ first_answer-IsSound s t r now (ground arith)
    | inr (old, o) ↦ change_answer-IsSound b s t r now (ground arith)
  ]
]

-- The snapshot at a position, after an update at the same position or at another one.
pub find-update :
    (p i : ℕ) (f : ExamQuestionSnapshot → ExamQuestionSnapshot) (ss : List ExamQuestionSnapshot)
    → ((s : ExamQuestionSnapshot) → (f s).position ≡ s.position)
    → find_snapshot i (update_snapshot p f ss) ≡ (
        if nat_beq i p
        then elim (find_snapshot p ss) [ none ↦ none | some s ↦ some (f s) ]
        else find_snapshot i ss)
find-update p i f [] same = ground arith
find-update p i f (s ∷ ss) same = ground (arith, find-update p i f ss same, same s)

-- What a call of `submit_exam_answer` that returns has done: the attempt was in progress, the
-- answer is sound for its question, it is stored there, and every other question, and every other
-- column of the attempt, is as before.
pub record IsSubmitted (before after : ExamAttempt) (p : ℕ) (a : ExamAnswer) : Type 0 where
  pub active : before.status ≡ ExamAttemptStatus.in_progress
  pub at : ExamQuestionSnapshot
  pub found : find_snapshot p before.question_snapshots ≡ some at
  pub sound : IsSound at a
  pub stored : find_snapshot p after.question_snapshots ≡ some (with_answer a at)
  pub others :
      (i : ℕ)
      → i ≢ p
      → find_snapshot i after.question_snapshots ≡ find_snapshot i before.question_snapshots
  pub kept : after ≡ record before { question_snapshots = after.question_snapshots }

pub submit-saved :
    (attempt : ExamAttempt) (p : ℕ) (r : Response) (now : Time) (a : ExamAnswer) (new : Bool)
    (after : ExamAttempt)
    → submit_exam_answer attempt p r now ≡ ok (a, new, after)
    → after ≡ save_answer attempt p a
unfolding submit_exam_answer
submit-saved attempt p r now a new after h =
    elim (Option-cases (find_snapshot p attempt.question_snapshots)) [
      | inl missing ↦ ground arith
      | inr (s, e) ↦ ground arith
    ]

pub active-status :
    (st : ExamAttemptStatus) → is_in_progress st ≡ true → st ≡ ExamAttemptStatus.in_progress
unfolding is_in_progress
active-status st h = ground arith

-- A submission that returns was made on an attempt in progress; it stores a sound answer at its
-- question, and touches nothing else.
pub submit-IsSubmitted :
    (attempt : ExamAttempt) (p : ℕ) (r : Response) (now : Time) (a : ExamAnswer) (new : Bool)
    (after : ExamAttempt)
    → submit_exam_answer attempt p r now ≡ ok (a, new, after)
    → IsSubmitted attempt after p a
unfolding submit_exam_answer
submit-IsSubmitted attempt p r now a new after h =
    elim (Option-cases (find_snapshot p attempt.question_snapshots)) [
      | inl missing ↦ ground arith
      | inr (s, e) ↦
          let made : answer_snapshot attempt.allow_back_navigation s r now ≡ ok (a, new) =
            ground arith in
          let saved : after ≡ save_answer attempt p a = ground arith in
          let at_p = find-update p p (with_answer a) attempt.question_snapshots (λ s. refl) in
          record {
            active = active-status attempt.status (ground arith);
            at = s;
            found = e;
            sound = answer_snapshot-IsSound attempt.allow_back_navigation s r now made;
            stored = ground arith;
            others = λ i ne.
                ground
                  (arith, find-update p i (with_answer a) attempt.question_snapshots (λ s. refl));
            kept = rw saved refl;
          }
    ]
