-- ===== src/Assessment/Exam/Life/Reported.antt =====
-- The result of an attempt, from start_exam_attempt on.
use ticket_sandbox.Prelude.{
  ℕ, ◌+◌, ◌≡◌, ◌≤◌, ◌↔◌, refl, nat_eq, true, List, [], ◌∷◌, Option, some, ok, length, All, arith,
  inl, inr, ◌*◌,
}
use ticket_sandbox.Prelude.Text.{Text}
use ticket_sandbox.Assessment.Constants.{ExamAttemptStatus}
use ticket_sandbox.Assessment.Questions.{Question}
use ticket_sandbox.Assessment.Random.{Random, IsRandom}
use ticket_sandbox.Assessment.Grading.Percentage.{hundred}
use ticket_sandbox.Assessment.Exam.Records.{
  Time, ExamQuestionSnapshot, ExamAttempt, AssessmentResult,
}
use ticket_sandbox.Assessment.Exam.Results.Completed.{HasSoundAnswer, build_result-IsResultOf}
use ticket_sandbox.Assessment.Exam.Attempts.{ExamAssignment, start_exam_attempt}
use ticket_sandbox.Assessment.Exam.Attempts.Started.{
  FreshFrom, IsStarted, start_exam_attempt-IsStarted,
}
use ticket_sandbox.Assessment.Exam.Life.{Steps}
use ticket_sandbox.Assessment.Exam.Life.Reached.{IsFinal, IsValid, IsSameExam, Steps-IsValid}

FreshFrom-sound : (ss : List ExamQuestionSnapshot) (p : ℕ) → FreshFrom p ss → All HasSoundAnswer ss
FreshFrom-sound [] p f = tt
FreshFrom-sound (s ∷ ss) p f =
    let (at, closed, fresh, rest) = f in (λ a e. ground arith, FreshFrom-sound ss (p + 1) rest)

started-IsValid :
    (bank : List Question) (before after : ExamAssignment) (a : ExamAttempt)
    → IsStarted bank before after a
    → IsValid a
started-IsValid bank before after a s = record {
  sound = FreshFrom-sound a.question_snapshots 1 s.fresh;
  distinct = s.positions_distinct;
  final = λ r e. let n = s.no_result in ground arith;
  known = λ e. let running = s.active in ground arith;
}

-- What a result says of the attempt that stores it.
pub record IsReported (a : ExamAttempt) (r : AssessmentResult) : Type 0 where
  pub final : IsFinal a r
  pub total : r.total_questions ≡ length a.question_snapshots
  pub bounded : r.score_percentage ≤ hundred
  pub passing : (r.passed ≡ true) ↔ (a.pass_percentage * 100 ≤ r.score_percentage)
  pub perfect : r.fully_correct_questions ≡ r.total_questions → r.score_percentage ≡ hundred

valid-IsReported :
    (a : ExamAttempt) (r : AssessmentResult) → IsValid a → a.result ≡ some r → IsReported a r
valid-IsReported a r v e =
    let f = v.final r e in
    let before : ExamAttempt = record a { status = ExamAttemptStatus.in_progress } in
    let o = build_result-IsResultOf before v.sound refl f.some_questions f.answered in
    record {
      final = f;
      total = rw f.computed o.total;
      bounded = rw f.computed o.bounded;
      passing = rw f.computed o.passing;
      perfect = rw f.computed o.perfect;
    }

-- The whole way, the random generator being what its documentation says: if a call starts an
-- attempt, then whatever calls that return follow, a result that the attempt has was computed from
-- answers to all its questions, has a score of at most 100.00, is passed exactly from the pass mark
-- on, and has the score 100.00 if all answers are correct; and the questions, the number, the pass
-- mark and the permission to go back are those of the start.
pub started-IsReported :
    (casefold : Text → Text) (random : Random) (token : Text)
    → IsRandom random
    → (bank : List Question) (before : ExamAssignment) (seed : Option Text) (now : Time)
      (first : ExamAttempt) (after : ExamAssignment) (last : ExamAttempt) (r : AssessmentResult)
    → start_exam_attempt casefold random token bank before seed now ≡ ok (first, true, after)
    → Steps first last
    → last.result ≡ some r
    → IsReported last r × IsSameExam first last
started-IsReported casefold random token laws bank before seed now first after last r h s e =
    elim (start_exam_attempt-IsStarted casefold random token laws bank before seed now first true
      after h) [
        | inr (old, _, _) ↦ cc
        | inl (_, started) ↦
            let (v, same) =
              Steps-IsValid first last s (started-IsValid bank before after first started) in
            (valid-IsReported last r v e, same)
      ]
