-- ===== src/Assessment/Exam/Life/Completable.antt =====
-- Ways to bring an attempt to its end, by opening its questions and letting them run out.
use ticket_sandbox.Prelude.{
  ℕ, zero, suc, ◌+◌, ◌<◌, ◌≤◌, ◌≡◌, refl, sym, ap, ◌∙◌, ◌⊎◌, nat_eq, true, List, [], ◌∷◌, Option,
  none, some, ok, length, count, all, arith, max, Option-cases, inl, inr,
}
use ticket_sandbox.Assessment.Constants.{ExamAttemptStatus}
use ticket_sandbox.Assessment.Snapshot.{SnapshotData}
use ticket_sandbox.Assessment.Exam.Records.{Time, ExamQuestionSnapshot, ExamAttempt}
use ticket_sandbox.Assessment.Exam.Answers.{
  deadline, timeout_answer, save_answer, no_response, submit_exam_answer,
}
use ticket_sandbox.Assessment.Exam.Answers.Late.{submit-timeout_answer}
use ticket_sandbox.Assessment.Exam.Flow.{is_unanswered}
use ticket_sandbox.Assessment.Exam.Flow.Pass.{
  has_answer, Found, here, later, Outcomes, kept, opened_now, timed_out, AllPassed, done, next,
}
use ticket_sandbox.Assessment.Exam.Flow.Loop.{current, current-unanswered, found_at, fewer}
use ticket_sandbox.Assessment.Exam.Flow.Opened.{open_current_question-IsOpened}
use ticket_sandbox.Assessment.Exam.Results.{answers_of}
use ticket_sandbox.Assessment.Exam.Results.Completed.{complete-created}
use ticket_sandbox.Assessment.Exam.Life.{
  Step, submitted, went_on, finished, called_at, StepsFrom, stop, call,
}
use ticket_sandbox.Assessment.Exam.Life.Kept.{asked}
use ticket_sandbox.Assessment.Exam.Life.Reached.{IsValid, Step-IsValid}

-- Some sequence of calls, from a time on, completes the attempt.
abbrev pub IsCompletable : Time → ExamAttempt → Type 0
IsCompletable from a =
    (z : ExamAttempt) × StepsFrom from a z × (z.status ≡ ExamAttemptStatus.completed)

abbrev unanswered : ExamAttempt → ℕ
unanswered a = count is_unanswered a.question_snapshots

-- An attempt that is not over yet.
record IsRunning (a : ExamAttempt) : Type 0 where
  valid : IsValid a
  active : a.status ≡ ExamAttemptStatus.in_progress
  some_questions : 0 < length a.question_snapshots

-- Only a completed attempt has a result.
active-no_result :
    (a : ExamAttempt) → IsValid a → a.status ≡ ExamAttemptStatus.in_progress → a.result ≡ none
active-no_result a v active = elim (Option-cases a.result) [
  | inl fresh ↦ fresh
  | inr (r, e) ↦ let closed = (v.final r e).closed in ground arith
]

Step-IsCompletable :
    (from : Time) (x y : ExamAttempt) (s : Step x y)
    → from ≤ called_at s
    → IsCompletable (called_at s) y
    → IsCompletable from x
Step-IsCompletable from x y s h (z, t, over) = (z, call s h t, over)

length-asked : (ss : List ExamQuestionSnapshot) → length (asked ss) ≡ length ss
length-asked [] = refl
length-asked (s ∷ ss) = omega (arith, length-asked ss)

Step-IsRunning :
    (x y : ExamAttempt)
    → Step x y
    → IsRunning x
    → y.status ≡ ExamAttemptStatus.in_progress
    → IsRunning y
Step-IsRunning x y s r active =
    let (v, same) = Step-IsValid x y s r.valid in
    let long : length y.question_snapshots ≡ length x.question_snapshots =
      sym (length-asked y.question_snapshots)
      ∙ ap (λ (qs : List (ℕ × SnapshotData)). length qs) same.questions
      ∙ length-asked x.question_snapshots in
    record { valid = v; active = active; some_questions = rw long r.some_questions }

pub length-answers_of :
    (ss : List ExamQuestionSnapshot) → length (answers_of ss) + count is_unanswered ss ≡ length ss
unfolding answers_of
length-answers_of [] = refl
length-answers_of (s ∷ ss) = ground (arith, length-answers_of ss)

pub all-answered :
    (ss : List ExamQuestionSnapshot) → all has_answer ss ≡ true → count is_unanswered ss ≡ 0
all-answered [] h = refl
all-answered (s ∷ ss) h = ground (arith, all-answered ss)

-- With all questions answered, one call is enough.
answered-IsCompletable :
    (from : Time) (a : ExamAttempt) → IsRunning a → unanswered a ≡ 0 → IsCompletable from a
answered-IsCompletable from a r full =
    let h =
      complete-created a from r.active (active-no_result a r.valid r.active) r.some_questions
        (omega (arith, length-answers_of a.question_snapshots)) in
    (_, call (finished from _ true h) (omega arith) stop, refl)

Found-current :
    (now : Time) (q : ExamQuestionSnapshot) (ss : List ExamQuestionSnapshot)
    → Found now q ss
    → (current ss ≡ some q) × ((t : Time) × (q.started_at ≡ some t))
Found-current now q _ (here t fresh st h) = (ground arith, (t, st))
Found-current now q _ (later answered f) =
    let (e, opened_at) = Found-current now q _ f in (ground arith, opened_at)

AllPassed-unanswered :
    (now : Time) {ss ss' : List ExamQuestionSnapshot}
    → AllPassed now ss ss'
    → count is_unanswered ss' ≤ count is_unanswered ss
AllPassed-unanswered now done = omega arith
AllPassed-unanswered now (next (kept e) ps) = ground (arith, AllPassed-unanswered now ps)
AllPassed-unanswered now (next (opened_now fresh st e) ps) =
    ground (arith, AllPassed-unanswered now ps)
AllPassed-unanswered now (next (timed_out t fresh st late e) ps) =
    ground (arith, AllPassed-unanswered now ps)

-- The current question, once open, can be left to run out.
time_out :
    (from : Time) (a : ExamAttempt) (s : ExamQuestionSnapshot) (t : Time)
    → IsRunning a
    → current a.question_snapshots ≡ some s
    → s.started_at ≡ some t
    → (b : ExamAttempt) × ((step : Step a b) × (from ≤ called_at step))
      × IsRunning b
      × (unanswered b < unanswered a)
time_out from a s t r h st =
    let ss = a.question_snapshots in
    let now = max from (deadline s t) in
    let ans = timeout_answer s t now in
    let fresh : s.answer ≡ none = current-unanswered ss {s = s} h in
    let called : submit_exam_answer a s.position no_response now
        ≡ ok (ans, true, save_answer a s.position ans) =
      submit-timeout_answer a s.position no_response now t s r.active
        (found_at ss {s = s} r.valid.distinct h) st fresh (omega arith) in
    let step = submitted s.position no_response now ans true called in
    (
      save_answer a s.position ans,
      (step, omega arith),
      Step-IsRunning a _ step r r.active,
      omega (arith, fewer ss {s = s} ans r.valid.distinct h),
    )

outcome-none :
    (now : Time) (q : Option ExamQuestionSnapshot) (ss : List ExamQuestionSnapshot)
    → q ≡ none
    → Outcomes now q ss
    → all has_answer ss ≡ true
outcome-none now none ss e o = o
outcome-none now (some s) ss e o = cc

outcome-some :
    (now : Time) (q : Option ExamQuestionSnapshot) (s : ExamQuestionSnapshot)
    (ss : List ExamQuestionSnapshot)
    → q ≡ some s
    → Outcomes now q ss
    → Found now s ss
outcome-some now none s ss e o = cc
outcome-some now (some x) s ss e o = let same : x ≡ s = ground arith in rw (← same) o

-- One round: the next question is opened and left to run out, unless none is left.
round :
    (from : Time) (a : ExamAttempt)
    → IsRunning a
    → IsCompletable from a
      ⊎ ((later : Time) × (b : ExamAttempt) × (IsCompletable later b → IsCompletable from a)
          × IsRunning b
          × (unanswered b < unanswered a))
round from a r =
    let (q, b, called, o) = open_current_question-IsOpened a from r.active r.valid.distinct in
    let step = went_on from q called in
    let active : b.status ≡ ExamAttemptStatus.in_progress = rw o.kept r.active in
    let running = Step-IsRunning a b step r active in
    elim (Option-cases q) [
      | inl nothing ↦
          let full : all has_answer b.question_snapshots ≡ true =
            outcome-none from q _ nothing o.current in
          inl (
            Step-IsCompletable from a b step (omega arith)
              (answered-IsCompletable from b running (all-answered b.question_snapshots full)))
      | inr (s, e) ↦
          let (now_current, (t, st)) =
            Found-current from s _ (outcome-some from q s _ e o.current) in
          let (c, (out, in_order), left, less) = time_out from b s t running now_current st in
          inr (
            called_at out,
            c,
            λ h.
                Step-IsCompletable from a b step (omega arith)
                  (Step-IsCompletable from b c out in_order h),
            left,
            omega (arith, AllPassed-unanswered from o.passed),
          )
    ]

rounds :
    (n : ℕ) (from : Time) (a : ExamAttempt) → IsRunning a → unanswered a < n → IsCompletable from a
rounds zero from a r few = elim few [ ]
rounds (suc n) from a r few = elim (round from a r) [
  | inl closed ↦ closed
  | inr (now, b, back, running, less) ↦ back (rounds n now b running (omega arith))
]

-- A valid attempt in progress that has questions can always be completed: from any time on, some
-- sequence of calls in the order of their times, all of which return, brings it to the status
-- completed.
pub running-IsCompletable :
    (from : Time) (a : ExamAttempt)
    → IsValid a
    → a.status ≡ ExamAttemptStatus.in_progress
    → 0 < length a.question_snapshots
    → IsCompletable from a
running-IsCompletable from a v active some_q =
    rounds (suc (unanswered a)) from a
      (record { valid = v; active = active; some_questions = some_q }) (omega arith)
