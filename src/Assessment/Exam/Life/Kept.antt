-- ===== src/Assessment/Exam/Life/Kept.antt =====
-- The questions of an attempt under a stored answer and an opened question.
use ticket_sandbox.Prelude.{
  ℕ, ◌≡◌, refl, List, [], ◌∷◌, some, All, arith, nat_beq, Bool-cases, inl, inr,
}
use ticket_sandbox.Assessment.Snapshot.{SnapshotData}
use ticket_sandbox.Assessment.Exam.Records.{Time, ExamAnswer, ExamQuestionSnapshot}
use ticket_sandbox.Assessment.Exam.Answers.{
  timeout_answer, find_snapshot, update_snapshot, with_answer,
}
use ticket_sandbox.Assessment.Exam.Answers.Saved.{IsSound}
use ticket_sandbox.Assessment.Exam.Flow.Pass.{
  Passed, kept, opened_now, timed_out, AllPassed, done, next,
}
use ticket_sandbox.Assessment.Exam.Results.Completed.{HasSoundAnswer}

-- The questions as they were frozen, without what the employee has done.
abbrev pub asked : List ExamQuestionSnapshot → List (ℕ × SnapshotData)
asked [] = []
asked (s ∷ ss) = (s.position, s.fields) ∷ asked ss

-- Soundness reads the question's limit only.
IsSound-fields :
    (s s' : ExamQuestionSnapshot) (a : ExamAnswer)
    → s'.fields ≡ s.fields
    → IsSound s a
    → IsSound s' a
IsSound-fields s s' a e v = record {
  bounded = v.bounded;
  marked = v.marked;
  late = v.late;
  in_time = rw e v.in_time;
}

with_answer-HasSoundAnswer :
    (s : ExamQuestionSnapshot) (a : ExamAnswer) → IsSound s a → HasSoundAnswer (with_answer a s)
with_answer-HasSoundAnswer s a v b e =
    let same : a ≡ b = ground arith in rw (← same) (IsSound-fields s (with_answer a s) a refl v)

timeout_answer-IsSound :
    (s : ExamQuestionSnapshot) (t now : Time) → IsSound s (timeout_answer s t now)
timeout_answer-IsSound s t now = record {
  bounded = omega arith;
  marked = refl;
  late = λ h. refl;
  in_time = omega arith;
}

pub update-HasSoundAnswer :
    (p : ℕ) (a : ExamAnswer) (ss : List ExamQuestionSnapshot) {s : ExamQuestionSnapshot}
    → find_snapshot p ss ≡ some s
    → IsSound s a
    → All HasSoundAnswer ss
    → All HasSoundAnswer (update_snapshot p (with_answer a) ss)
update-HasSoundAnswer p a [] h v all = tt
update-HasSoundAnswer p a (x ∷ xs) {s} h v all = elim (Bool-cases (nat_beq x.position p)) [
  | inl here ↦
      let e : x ≡ s = ground arith in rw here (with_answer-HasSoundAnswer x a (rw e v), all.1)
  | inr there ↦ rw there (all.0, update-HasSoundAnswer p a xs {s = s} (ground arith) v all.1)
]

pub asked-update :
    (p : ℕ) (a : ExamAnswer) (ss : List ExamQuestionSnapshot)
    → asked (update_snapshot p (with_answer a) ss) ≡ asked ss
asked-update p a [] = refl
asked-update p a (x ∷ xs) = ground (arith, asked-update p a xs)

module _ (now : Time) where
  Passed-HasSoundAnswer :
      (s s' : ExamQuestionSnapshot) → Passed now s s' → HasSoundAnswer s → HasSoundAnswer s'
  Passed-HasSoundAnswer s s' (kept e) v = rw e v
  Passed-HasSoundAnswer s s' (opened_now fresh st e) v = λ a h. ground arith
  Passed-HasSoundAnswer s s' (timed_out t fresh st late e) v =
      rw e (with_answer-HasSoundAnswer s (timeout_answer s t now) (timeout_answer-IsSound s t now))

  Passed-asked :
      (s s' : ExamQuestionSnapshot)
      → Passed now s s'
      → (s'.position ≡ s.position) × (s'.fields ≡ s.fields)
  Passed-asked s s' (kept e) = rw e (refl, refl)
  Passed-asked s s' (opened_now fresh st e) = rw e (refl, refl)
  Passed-asked s s' (timed_out t fresh st late e) = rw e (refl, refl)

  pub AllPassed-HasSoundAnswer :
      {ss ss' : List ExamQuestionSnapshot}
      → AllPassed now ss ss'
      → All HasSoundAnswer ss
      → All HasSoundAnswer ss'
  AllPassed-HasSoundAnswer done v = tt
  AllPassed-HasSoundAnswer (next {s} {s'} p ps) v =
      (Passed-HasSoundAnswer s s' p v.0, AllPassed-HasSoundAnswer ps v.1)

  pub AllPassed-asked :
      {ss ss' : List ExamQuestionSnapshot} → AllPassed now ss ss' → asked ss' ≡ asked ss
  AllPassed-asked done = refl
  AllPassed-asked (next {s} {s'} p ps) =
      let (e, f) = Passed-asked s s' p in ground (arith, AllPassed-asked ps, e, f)
