-- ===== src/Assessment/Exam/Life/Reached.antt =====
-- The calls on one attempt (answers.py, question_flow.py and results.py of assessment/services).
use ticket_sandbox.Prelude.{
  ℕ, ◌<◌, ◌≡◌, refl, sym, ◌∙◌, nat_eq, Bool, true, false, List, [], ◌∷◌, Option, some, ok, length,
  All, arith, Bool-cases, inl, inr,
}
use ticket_sandbox.Prelude.Sets.{IsNodup}
use ticket_sandbox.Assessment.Constants.{ExamAttemptStatus}
use ticket_sandbox.Assessment.Grading.{Response}
use ticket_sandbox.Assessment.Exam.Records.{
  Time, ExamAnswer, ExamQuestionSnapshot, ExamAttempt, AssessmentResult, is_in_progress,
}
use ticket_sandbox.Assessment.Exam.Answers.{submit_exam_answer}
use ticket_sandbox.Assessment.Exam.Answers.Saved.{submit-IsSubmitted, submit-saved, active-status}
use ticket_sandbox.Assessment.Exam.Flow.{open_current_question}
use ticket_sandbox.Assessment.Exam.Flow.Loop.{positions}
use ticket_sandbox.Assessment.Exam.Flow.Opened.{
  open_current_question-IsOpened, open_current_question-inactive,
}
use ticket_sandbox.Assessment.Exam.Results.{answers_of, build_result, complete_exam_attempt}
use ticket_sandbox.Assessment.Exam.Results.Completed.{
  HasSoundAnswer, complete-cases, complete-existing,
}
use ticket_sandbox.Assessment.Exam.Life.{
  Step, submitted, went_on, finished, Steps, none_yet, one_more,
}
use ticket_sandbox.Assessment.Exam.Life.Kept.{
  asked, update-HasSoundAnswer, asked-update, AllPassed-HasSoundAnswer, AllPassed-asked,
}

-- A result that is stored is the one computed from all the answers, of a completed attempt.
pub record IsFinal (a : ExamAttempt) (r : AssessmentResult) : Type 0 where
  pub closed : a.status ≡ ExamAttemptStatus.completed
  pub some_questions : 0 < length a.question_snapshots
  pub answered : length (answers_of a.question_snapshots) ≡ length a.question_snapshots
  pub computed :
      r
      ≡ build_result a.pass_percentage
          (length a.question_snapshots)
          (answers_of a.question_snapshots)

-- An attempt as the operations keep it.
pub record IsValid (a : ExamAttempt) : Type 0 where
  pub sound : All HasSoundAnswer a.question_snapshots
  pub distinct : IsNodup (positions a.question_snapshots)
  pub final : (r : AssessmentResult) → a.result ≡ some r → IsFinal a r
  pub known : a.status ≡ ExamAttemptStatus.completed → (r : AssessmentResult) × (a.result ≡ some r)

-- What no operation changes: the questions and the terms of the attempt.
pub record IsSameExam (a b : ExamAttempt) : Type 0 where
  pub questions : asked b.question_snapshots ≡ asked a.question_snapshots
  pub number : b.attempt_number ≡ a.attempt_number
  pub mark : b.pass_percentage ≡ a.pass_percentage
  pub back : b.allow_back_navigation ≡ a.allow_back_navigation

positions-asked :
    (xs ys : List ExamQuestionSnapshot) → asked xs ≡ asked ys → positions xs ≡ positions ys
positions-asked [] [] e = refl
positions-asked [] (y ∷ ys) e = cc
positions-asked (x ∷ xs) [] e = cc
positions-asked (x ∷ xs) (y ∷ ys) e = ground (arith, positions-asked xs ys)

-- An attempt in progress whose questions have changed, and nothing else.
replaced-IsValid :
    (a : ExamAttempt) (ss : List ExamQuestionSnapshot)
    → IsValid a
    → a.status ≡ ExamAttemptStatus.in_progress
    → asked ss ≡ asked a.question_snapshots
    → All HasSoundAnswer ss
    → IsValid (record a { question_snapshots = ss })
replaced-IsValid a ss v active same sound = record {
  sound = sound;
  distinct = rw (positions-asked ss a.question_snapshots same) v.distinct;
  final = λ r h. let f = v.final r h in ground (arith, f.closed);
  known = λ h. ground arith;
}

submit-IsValid :
    (a : ExamAttempt) (p : ℕ) (r : Response) (now : Time) (ans : ExamAnswer) (new : Bool)
    (b : ExamAttempt)
    → submit_exam_answer a p r now ≡ ok (ans, new, b)
    → IsValid a
    → IsValid b × IsSameExam a b
submit-IsValid a p r now ans new b h v =
    let done = submit-IsSubmitted a p r now ans new b h in
    let saved = submit-saved a p r now ans new b h in
    let same = asked-update p ans a.question_snapshots in
    rw saved (
      replaced-IsValid a _ v done.active same (
          update-HasSoundAnswer p ans a.question_snapshots {s = done.at} done.found done.sound
            v.sound),
      record { questions = same; number = refl; mark = refl; back = refl },
    )

IsSameExam-refl : (a : ExamAttempt) → IsSameExam a a
IsSameExam-refl a = record { questions = refl; number = refl; mark = refl; back = refl }

IsSameExam-trans : (a b c : ExamAttempt) → IsSameExam a b → IsSameExam b c → IsSameExam a c
IsSameExam-trans a b c v w = record {
  questions = w.questions ∙ v.questions;
  number = w.number ∙ v.number;
  mark = w.mark ∙ v.mark;
  back = w.back ∙ v.back;
}

open-IsValid :
    (a : ExamAttempt) (now : Time) (q : Option ExamQuestionSnapshot) (b : ExamAttempt)
    → open_current_question a now ≡ some (ok (q, b))
    → IsValid a
    → IsValid b × IsSameExam a b
open-IsValid a now q b h v = elim (Bool-cases (is_in_progress a.status)) [
  | inl active ↦
      let running = active-status a.status active in
      let (q', b', called, o) = open_current_question-IsOpened a now running v.distinct in
      let e : b' ≡ b = ground arith in
      let same = AllPassed-asked now o.passed in
      rw (← e, o.kept)
        (
          replaced-IsValid a b'.question_snapshots v running same
              (AllPassed-HasSoundAnswer now o.passed v.sound),
          record { questions = same; number = refl; mark = refl; back = refl },
        )
  | inr idle ↦
      let e : a ≡ b = ground (arith, open_current_question-inactive a now idle) in
      rw (← e) (v, IsSameExam-refl a)
]

complete-IsValid :
    (a : ExamAttempt) (now : Time) (r : AssessmentResult) (created : Bool) (b : ExamAttempt)
    → complete_exam_attempt a now ≡ ok (r, created, b)
    → IsValid a
    → IsValid b × IsSameExam a b
complete-IsValid a now r true b h v =
    let (active, some_q, full, made, saved) = complete-cases a now r b h in
    rw saved (
      record {
        sound = v.sound;
        distinct = v.distinct;
        final = λ r' e.
            let same : r ≡ r' = ground arith in
            rw (← same)
              (record { closed = refl; some_questions = some_q; answered = full; computed = made });
        known = λ e. (r, refl);
      },
      record { questions = refl; number = refl; mark = refl; back = refl },
    )
complete-IsValid a now r false b h v =
    let e : a ≡ b = ground (arith, complete-existing a now r b h) in rw (← e) (v, IsSameExam-refl a)

pub Step-IsValid : (x y : ExamAttempt) → Step x y → IsValid x → IsValid y × IsSameExam x y
Step-IsValid x y (submitted p r now a new h) v = submit-IsValid x p r now a new y h v
Step-IsValid x y (went_on now q h) v = open-IsValid x now q y h v
Step-IsValid x y (finished now r created h) v = complete-IsValid x now r created y h v

-- Any sequence of calls that return, at any times and in any order, keeps a valid attempt valid: its
-- answers sound, its positions distinct, a stored result the one computed from answers to all its
-- questions, and stored if it is completed. No call changes the frozen questions, the number, the
-- pass mark or the permission to go back.
pub Steps-IsValid : (x y : ExamAttempt) → Steps x y → IsValid x → IsValid y × IsSameExam x y
Steps-IsValid x _ none_yet v = (v, IsSameExam-refl x)
Steps-IsValid x z (one_more {y} s t) v =
    let (w, e) = Steps-IsValid x y s v in
    let (u, f) = Step-IsValid y z t w in (u, IsSameExam-trans x y z e f)

active-completed :
    (a : ExamAttempt) → a.status ≡ ExamAttemptStatus.completed → is_in_progress a.status ≡ false
unfolding is_in_progress
active-completed a h = ground arith

Step-completed : (x y : ExamAttempt) → x.status ≡ ExamAttemptStatus.completed → Step x y → y ≡ x
Step-completed x y h (submitted p r now a new e) =
    let active = (submit-IsSubmitted x p r now a new y e).active in ground arith
Step-completed x y h (went_on now q e) =
    ground (arith, open_current_question-inactive x now (active-completed x h))
Step-completed x y h (finished now r true e) =
    let (active, _, _, _, _) = complete-cases x now r y e in ground arith
Step-completed x y h (finished now r false e) = sym (complete-existing x now r y e)

-- A completed attempt is final: no later call that returns changes anything of it.
pub Steps-completed :
    (x y : ExamAttempt) → x.status ≡ ExamAttemptStatus.completed → Steps x y → y ≡ x
Steps-completed x _ h none_yet = refl
Steps-completed x z h (one_more {y} s t) =
    let e = Steps-completed x y h s in Step-completed y z (rw e h) t ∙ e
