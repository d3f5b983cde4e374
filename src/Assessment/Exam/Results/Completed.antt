-- ===== src/Assessment/Exam/Results/Completed.antt =====
-- `complete_exam_attempt` of assessment/services/results.py.
use ticket_sandbox.Prelude.{
  ℕ, refl, sym, ◌∙◌, ◌*◌, ◌≤◌, ◌<◌, ◌≡◌, ◌↔◌, Bool, true, false, List, [], ◌∷◌, some, length,
  length-map, count, count-le-length, sum, All, arith, Option-cases, inl, inr, ok, none,
}
use ticket_sandbox.Assessment.Constants.{ExamAttemptStatus}
use ticket_sandbox.Assessment.Grading.Percentage.{
  hundred, average_score, average_score-le-hundred, le-round_half_up, average_score_lem,
}
use ticket_sandbox.Assessment.Exam.Records.{
  Time, ExamAnswer, ExamQuestionSnapshot, ExamAttempt, AssessmentResult,
}
use ticket_sandbox.Assessment.Exam.Answers.Saved.{IsSound}
use ticket_sandbox.Assessment.Exam.Results.{
  Answered, answers_of, scores_of, build_result, complete_exam_attempt,
}
use ticket_sandbox.Assessment.Exam.Results.Breakdown.{
  topic_total, skill_total, build_breakdown-totals,
}

-- The answer of a question, if it has one, is sound for it.
abbrev pub HasSoundAnswer : ExamQuestionSnapshot → Type 0
HasSoundAnswer s = (a : ExamAnswer) → s.answer ≡ some a → IsSound s a

scores_bounded :
    (ss : List ExamQuestionSnapshot)
    → All HasSoundAnswer ss
    → All (λ q. q ≤ hundred) (scores_of (answers_of ss))
unfolding answers_of
scores_bounded [] h = tt
scores_bounded (s ∷ ss) h = elim (Option-cases s.answer) [
  | inl e ↦ ground (arith, scores_bounded ss h.1)
  | inr (a, e) ↦ ground (arith, scores_bounded ss h.1, (h.0 a e).bounded)
]

-- With only correct answers the scores add up to the full sum.
scores_full :
    (ss : List ExamQuestionSnapshot)
    → All HasSoundAnswer ss
    → count (λ a. a.answer.is_correct) (answers_of ss) ≡ length (answers_of ss)
    → hundred * length (answers_of ss) ≤ sum (scores_of (answers_of ss))
unfolding answers_of
scores_full [] h e = omega arith
scores_full (s ∷ ss) h e = elim (Option-cases s.answer) [
  | inl n ↦ ground (arith, scores_full ss h.1)
  | inr (a, n) ↦ ground (
    arith,
    scores_full ss h.1,
    (h.0 a n).marked,
    count-le-length (λ (a : Answered). a.answer.is_correct) (answers_of ss),
  )
]

average-full :
    (qs : List ℕ)
    → 0 < length qs
    → All (λ q. q ≤ hundred) qs
    → hundred * length qs ≤ sum qs
    → average_score qs ≡ hundred
average-full qs some_q low high = omega (
  arith,
  average_score_lem qs some_q,
  average_score-le-hundred qs low,
  le-round_half_up hundred (sum qs) (length qs) some_q (omega arith),
)

-- What a new result says of the attempt that it closes.
pub record IsResultOf (before : ExamAttempt) (r : AssessmentResult) : Type 0 where
  pub active : before.status ≡ ExamAttemptStatus.in_progress
  -- every question has an answer
  pub answered : length (answers_of before.question_snapshots) ≡ length before.question_snapshots
  pub total : r.total_questions ≡ length before.question_snapshots
  pub bounded : r.score_percentage ≤ hundred
  pub passing : (r.passed ≡ true) ↔ (before.pass_percentage * 100 ≤ r.score_percentage)
  pub correct : r.fully_correct_questions ≤ r.total_questions
  pub perfect : r.fully_correct_questions ≡ r.total_questions → r.score_percentage ≡ hundred
  pub topics : topic_total r.topic_breakdown ≡ r.total_questions
  pub skills : skill_total r.skill_breakdown ≡ r.total_questions

abbrev pub completed_by : ExamAttempt → Time → AssessmentResult → ExamAttempt
completed_by before now r = record before {
  status = ExamAttemptStatus.completed;
  completed_at = some now;
  result = some r;
}

pub complete-existing :
    (before : ExamAttempt) (now : Time) (r : AssessmentResult) (after : ExamAttempt)
    → complete_exam_attempt before now ≡ ok (r, false, after)
    → before ≡ after
unfolding complete_exam_attempt
complete-existing before now r after h = ground arith

pub complete-cases :
    (before : ExamAttempt) (now : Time) (r : AssessmentResult) (after : ExamAttempt)
    → complete_exam_attempt before now ≡ ok (r, true, after)
    → (before.status ≡ ExamAttemptStatus.in_progress)
      × (0 < length before.question_snapshots)
      × (length (answers_of before.question_snapshots) ≡ length before.question_snapshots)
      × (r
          ≡ build_result before.pass_percentage
              (length before.question_snapshots)
              (answers_of before.question_snapshots))
      × (after ≡ completed_by before now r)
unfolding complete_exam_attempt
complete-cases before now r after h = ground arith

pub build_result-IsResultOf :
    (before : ExamAttempt)
    → All HasSoundAnswer before.question_snapshots
    → before.status ≡ ExamAttemptStatus.in_progress
    → 0 < length before.question_snapshots
    → length (answers_of before.question_snapshots) ≡ length before.question_snapshots
    → IsResultOf before (
        build_result before.pass_percentage
          (length before.question_snapshots)
          (answers_of before.question_snapshots))
unfolding build_result
build_result-IsResultOf before sound active some_q full =
    let ss = before.question_snapshots in
    let as' = answers_of ss in
    let qs = scores_of as' in
    let low = scores_bounded ss sound in
    let same = length-map (λ (a : Answered). a.answer.score_percentage) as' in
    record {
      active = active;
      answered = full;
      total = refl;
      bounded = average_score-le-hundred qs low;
      passing = ground arith;
      correct = omega (arith, full, count-le-length (λ (a : Answered). a.answer.is_correct) as');
      perfect = λ e.
          average-full qs (omega (arith, same)) low
            (omega (arith, same, scores_full ss sound (e ∙ sym full)));
      topics = (build_breakdown-totals as').0 ∙ full;
      skills = (build_breakdown-totals as').1 ∙ full;
    }

-- If completing an attempt creates a result, the attempt was in progress, all its questions were
-- answered, and the result fits the answers: a score of at most 100.00, passed exactly from the pass
-- mark on, 100.00 if every answer is correct, and breakdowns that count each question once. The
-- attempt is completed at that time with that result, and nothing else of it changes.
pub complete-result :
    (before : ExamAttempt) (now : Time) (r : AssessmentResult) (after : ExamAttempt)
    → All HasSoundAnswer before.question_snapshots
    → complete_exam_attempt before now ≡ ok (r, true, after)
    → IsResultOf before r × (after ≡ completed_by before now r)
complete-result before now r after sound h =
    let (active, some_q, full, made, saved) = complete-cases before now r after h in
    (rw made (build_result-IsResultOf before sound active some_q full), saved)

-- An attempt is completed once: after a call that returned a result, any later call returns the same
-- result, as an existing one, and changes nothing.
pub complete_twice :
    (before : ExamAttempt) (now later : Time) (r : AssessmentResult) (created : Bool)
    (after : ExamAttempt)
    → complete_exam_attempt before now ≡ ok (r, created, after)
    → complete_exam_attempt after later ≡ ok (r, false, after)
unfolding complete_exam_attempt
complete_twice before now later r created after h = ground arith

-- No second result is created.
pub complete-no_result :
    (before : ExamAttempt) (now : Time) (r : AssessmentResult) (after : ExamAttempt)
    → complete_exam_attempt before now ≡ ok (r, true, after)
    → before.result ≡ none
unfolding complete_exam_attempt
complete-no_result before now r after h = elim (Option-cases before.result) [
  | inl fresh ↦ fresh
  | inr (old, e) ↦ ground arith
]

-- The call that creates a result, where there is none and every question has an answer.
pub complete-created :
    (before : ExamAttempt) (now : Time)
    → before.status ≡ ExamAttemptStatus.in_progress
    → before.result ≡ none
    → 0 < length before.question_snapshots
    → length (answers_of before.question_snapshots) ≡ length before.question_snapshots
    → let r =
        build_result before.pass_percentage
          (length before.question_snapshots)
          (answers_of before.question_snapshots) in
      complete_exam_attempt before now ≡ ok (r, true, completed_by before now r)
unfolding complete_exam_attempt
complete-created before now active fresh some_q full = ground arith
