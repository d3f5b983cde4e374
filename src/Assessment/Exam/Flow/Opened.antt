-- ===== src/Assessment/Exam/Flow/Opened.antt =====
-- `open_current_question` of assessment/services/question_flow.py, against the pass over the questions.
use ticket_sandbox.Prelude.{
  ℕ, zero, suc, ◌≤◌, ◌<◌, ◌≡◌, refl, nat_eq, true, false, List, Option, none, some, length, count,
  count-le-length, ltb, arith, Bool-cases, Option-cases, inl, inr, ok,
}
use ticket_sandbox.Prelude.Sets.{IsNodup}
use ticket_sandbox.Assessment.Constants.{ExamAttemptStatus}
use ticket_sandbox.Assessment.Exam.Records.{Time, ExamQuestionSnapshot, ExamAttempt, is_in_progress}
use ticket_sandbox.Assessment.Exam.Answers.{
  deadline, timeout_answer, with_answer, submit_exam_answer, save_answer, no_response,
}
use ticket_sandbox.Assessment.Exam.Answers.Late.{submit-timeout_answer}
use ticket_sandbox.Assessment.Exam.Flow.{is_unanswered, open_loop, open_current_question}
use ticket_sandbox.Assessment.Exam.Flow.Pass.{
  pass, AllPassed, pass-AllPassed, Outcomes, pass-Outcomes,
}
use ticket_sandbox.Assessment.Exam.Flow.Loop.{
  positions, current, current-unanswered, found_at, positions-update, pass-none, pass-current_new,
  pass-current_live, pass-current_late, fewer,
}

abbrev with_snapshots : ExamAttempt → List ExamQuestionSnapshot → ExamAttempt
with_snapshots attempt ss = record attempt { question_snapshots = ss }

module _ (now : Time) where
  -- The timeout that the loop submits is accepted.
  submit_timeout :
      (attempt : ExamAttempt) (s : ExamQuestionSnapshot) (t : Time)
      → attempt.status ≡ ExamAttemptStatus.in_progress
      → IsNodup (positions attempt.question_snapshots)
      → current attempt.question_snapshots ≡ some s
      → s.started_at ≡ some t
      → deadline s t ≤ now
      → submit_exam_answer attempt s.position no_response now
        ≡ ok (timeout_answer s t now, true, save_answer attempt s.position (timeout_answer s t now))
  submit_timeout attempt s t active n h st over =
      let fresh : s.answer ≡ none = current-unanswered attempt.question_snapshots h in
      submit-timeout_answer attempt s.position no_response now t s active
        (found_at attempt.question_snapshots n h) st fresh over

  open_loop-pass :
      (fuel : ℕ) (attempt : ExamAttempt)
      → attempt.status ≡ ExamAttemptStatus.in_progress
      → IsNodup (positions attempt.question_snapshots)
      → count is_unanswered attempt.question_snapshots < fuel
      → open_loop fuel attempt now
        ≡ some (
            ok (
              (pass now attempt.question_snapshots).0,
              with_snapshots attempt (pass now attempt.question_snapshots).1,
            ))
  unfolding open_loop
  open_loop-pass zero attempt active n few = elim few [ ]
  open_loop-pass (suc fuel) attempt active n few =
      let ss = attempt.question_snapshots in
      elim (Option-cases (current ss)) [
        | inl nothing ↦ ground (arith, pass-none now ss nothing)
        | inr (s, h) ↦ elim (Option-cases s.started_at) [
          | inl closed ↦ ground (arith, pass-current_new now ss n h closed)
          | inr (t, st) ↦ elim (Bool-cases (ltb now (deadline s t))) [
            | inl early ↦ ground (arith, pass-current_live now ss {s = s} {t = t} h st)
            | inr over ↦
                let a = timeout_answer s t now in
                let late : deadline s t ≤ now = ground arith in
                let after = save_answer attempt s.position a in
                ground (
                  arith,
                  submit_timeout attempt s t active n h st late,
                  open_loop-pass fuel after active
                      (rw (positions-update s.position (with_answer a) ss (λ s. refl)) n)
                      (omega (arith, fewer ss {s = s} a n h)),
                  pass-current_late now ss {s = s} {t = t} n h st late,
                )
          ]
        ]
      ]

-- What opening the current question has done to an attempt in progress.
pub record IsOpened (now : Time) (before after : ExamAttempt) (q : Option ExamQuestionSnapshot)
    : Type 0 where
  -- every question is as it was, or opened now, or timed out after its deadline
  pub passed : AllPassed now before.question_snapshots after.question_snapshots
  -- the question given is the first without an answer, and its time is not over; if none is given,
  -- every question has an answer
  pub current : Outcomes now q after.question_snapshots
  -- no other column has changed
  pub kept : after ≡ record before { question_snapshots = after.question_snapshots }

-- The loop of `open_current_question` always ends and never raises: for an attempt in progress whose
-- positions are unique, it returns the first question without an answer, its time not over, or none
-- if all have answers; each question is as it was, opened now, or timed out after its deadline.
pub open_current_question-IsOpened :
    (attempt : ExamAttempt) (now : Time)
    → attempt.status ≡ ExamAttemptStatus.in_progress
    → IsNodup (positions attempt.question_snapshots)
    → (q : Option ExamQuestionSnapshot) × (after : ExamAttempt) × (open_current_question attempt now
        ≡ some (ok (q, after)))
      × IsOpened now attempt after q
unfolding open_current_question is_in_progress
open_current_question-IsOpened attempt now active n =
    let ss = attempt.question_snapshots in
    let fuel : count is_unanswered ss < suc (length ss) =
      omega (arith, count-le-length is_unanswered ss) in
    (
      (pass now ss).0,
      with_snapshots attempt (pass now ss).1,
      ground (arith, open_loop-pass now (suc (length ss)) attempt active n fuel),
      record { passed = pass-AllPassed now ss; current = pass-Outcomes now ss; kept = refl },
    )

-- An attempt that is not in progress is left alone, and has no current question.
pub open_current_question-inactive :
    (attempt : ExamAttempt) (now : Time)
    → is_in_progress attempt.status ≡ false
    → open_current_question attempt now ≡ some (ok (none, attempt))
unfolding open_current_question
open_current_question-inactive attempt now h = ground arith
