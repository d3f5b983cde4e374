-- ===== src/Assessment/Exam/Flow/Pass.antt =====
-- Opening the current question (assessment/services/question_flow.py) as one pass over the questions.
use ticket_sandbox.Prelude.{
  ◌≤◌, ◌<◌, ◌≡◌, ◌⊎◌, refl, Bool, true, false, List, [], ◌∷◌, Option, none, some, all, ltb, arith,
  Bool-cases, Option-cases, inl, inr, if◌then◌else◌,
}
use ticket_sandbox.Assessment.Exam.Records.{Time, ExamQuestionSnapshot, ExamAnswer}
use ticket_sandbox.Assessment.Exam.Answers.{deadline, timeout_answer, with_answer}

-- The first question without an answer whose time is not over is the current one, opened now if it
-- was not yet; those before it that were open too long are stored as timed out.
unfoldable pub pass :
    Time → List ExamQuestionSnapshot → Option ExamQuestionSnapshot × List ExamQuestionSnapshot
pass now [] = (none, [])
pass now (s ∷ ss) =
    let rest = pass now ss in
    let opened : ExamQuestionSnapshot = record s { started_at = some now } in
    elim s.answer [
      | some a ↦ (rest.0, s ∷ rest.1)
      | none ↦ elim s.started_at [
        | none ↦ (some opened, opened ∷ ss)
        | some t ↦
            if ltb now (deadline s t)
            then (some s, s ∷ ss)
            else (rest.0, with_answer (timeout_answer s t now) s ∷ rest.1)
      ]
    ]

-- What a pass may do to a question: nothing, open it now, or store a timeout after its deadline.
pub data Passed (now : Time) (s : ExamQuestionSnapshot) (s' : ExamQuestionSnapshot) : Type 0 where
  kept : s' ≡ s → Passed now s s'
  opened_now :
      s.answer ≡ none
      → s.started_at ≡ none
      → s' ≡ record s { started_at = some now }
      → Passed now s s'
  timed_out :
      (t : Time)
      → s.answer ≡ none
      → s.started_at ≡ some t
      → deadline s t ≤ now
      → s' ≡ with_answer (timeout_answer s t now) s
      → Passed now s s'

-- Question by question.
pub data AllPassed (now : Time)
    : List ExamQuestionSnapshot → List ExamQuestionSnapshot → Type 0 where
  done : AllPassed now [] []
  next :
      {s s' : ExamQuestionSnapshot} {ss ss' : List ExamQuestionSnapshot}
      → Passed now s s'
      → AllPassed now ss ss'
      → AllPassed now (s ∷ ss) (s' ∷ ss')

pub AllPassed-refl : (now : Time) (ss : List ExamQuestionSnapshot) → AllPassed now ss ss
AllPassed-refl now [] = done
AllPassed-refl now (s ∷ ss) = next (kept refl) (AllPassed-refl now ss)

module _ (now : Time) (s : ExamQuestionSnapshot) (ss : List ExamQuestionSnapshot) where
  pub pass-answered :
      {a : ExamAnswer}
      → s.answer ≡ some a
      → pass now (s ∷ ss) ≡ ((pass now ss).0, s ∷ (pass now ss).1)
  unfolding pass
  pass-answered e = ground arith

  pub pass-new :
      s.answer ≡ none
      → s.started_at ≡ none
      → pass now (s ∷ ss)
        ≡ (some (record s { started_at = some now }), record s { started_at = some now } ∷ ss)
  unfolding pass
  pass-new e n = ground arith

  pub pass-live :
      {t : Time}
      → s.answer ≡ none
      → s.started_at ≡ some t
      → now < deadline s t
      → pass now (s ∷ ss) ≡ (some s, s ∷ ss)
  unfolding pass
  pass-live e st early = ground arith

  pub pass-late :
      {t : Time}
      → s.answer ≡ none
      → s.started_at ≡ some t
      → deadline s t ≤ now
      → pass now (s ∷ ss)
        ≡ ((pass now ss).0, with_answer (timeout_answer s t now) s ∷ (pass now ss).1)
  unfolding pass
  pass-late e st late = ground arith

-- The four cases of a question at a time.
pub data Standing (now : Time) (s : ExamQuestionSnapshot) : Type 0 where
  answered : (a : ExamAnswer) → s.answer ≡ some a → Standing now s
  unopened : s.answer ≡ none → s.started_at ≡ none → Standing now s
  live : (t : Time) → s.answer ≡ none → s.started_at ≡ some t → now < deadline s t → Standing now s
  late : (t : Time) → s.answer ≡ none → s.started_at ≡ some t → deadline s t ≤ now → Standing now s

pub standing : (now : Time) (s : ExamQuestionSnapshot) → Standing now s
standing now s = elim (Option-cases s.answer) [
  | inr (a, e) ↦ answered a e
  | inl e ↦ elim (Option-cases s.started_at) [
    | inl n ↦ unopened e n
    | inr (t, st) ↦ elim (Bool-cases (ltb now (deadline s t))) [
      | inl h ↦ live t e st (ground arith)
      | inr h ↦ late t e st (ground arith)
    ]
  ]
]

-- The pass leaves the number and the order of the questions, and every answer that is there.
pub pass-AllPassed :
    (now : Time) (ss : List ExamQuestionSnapshot) → AllPassed now ss (pass now ss).1
unfolding pass
pass-AllPassed now [] = done
pass-AllPassed now (s ∷ ss) = elim (standing now s) [
  | answered a e ↦ rw (pass-answered now s ss e) (next (kept refl) (pass-AllPassed now ss))
  | unopened e n ↦ rw (pass-new now s ss e n) (next (opened_now e n refl) (AllPassed-refl now ss))
  | live t e st h ↦ rw (pass-live now s ss e st h) (next (kept refl) (AllPassed-refl now ss))
  | late t e st h ↦
      rw (pass-late now s ss e st h) (next (timed_out t e st h refl) (pass-AllPassed now ss))
]

abbrev pub has_answer : ExamQuestionSnapshot → Bool
has_answer s = elim s.answer [ none ↦ false | some _ ↦ true ]

-- The question that a pass gives: it has no answer, its time is not over, it stands in the new
-- list, and all before it have answers. If there is none, all have answers.
pub data Found (now : Time) (q : ExamQuestionSnapshot) : List ExamQuestionSnapshot → Type 0 where
  here :
      {ss : List ExamQuestionSnapshot} (t : Time)
      → q.answer ≡ none
      → q.started_at ≡ some t
      → (t ≡ now) ⊎ (now < deadline q t)
      → Found now q (q ∷ ss)
  later :
      {s : ExamQuestionSnapshot} {ss : List ExamQuestionSnapshot}
      → has_answer s ≡ true
      → Found now q ss
      → Found now q (s ∷ ss)

abbrev pub Outcomes : Time → Option ExamQuestionSnapshot → List ExamQuestionSnapshot → Type 0
Outcomes now none ss = all has_answer ss ≡ true
Outcomes now (some q) ss = Found now q ss

Outcomes-later :
    (now : Time) (o : Option ExamQuestionSnapshot) (s : ExamQuestionSnapshot)
    (ss : List ExamQuestionSnapshot)
    → has_answer s ≡ true
    → Outcomes now o ss
    → Outcomes now o (s ∷ ss)
Outcomes-later now none s ss h r = ground arith
Outcomes-later now (some q) s ss h r = later h r

pub pass-Outcomes :
    (now : Time) (ss : List ExamQuestionSnapshot) → Outcomes now (pass now ss).0 (pass now ss).1
unfolding pass
pass-Outcomes now [] = refl
pass-Outcomes now (s ∷ ss) = elim (standing now s) [
  | answered a e ↦
      rw (pass-answered now s ss e)
        (Outcomes-later now (pass now ss).0 s (pass now ss).1 (ground arith) (pass-Outcomes now ss))
  | unopened e n ↦ rw (pass-new now s ss e n) (here now e refl (inl refl))
  | live t e st h ↦ rw (pass-live now s ss e st h) (here t e st (inr h))
  | late t e st h ↦ rw (pass-late now s ss e st h) (
      Outcomes-later now (pass now ss).0 (with_answer (timeout_answer s t now) s) (pass now ss).1
        refl (pass-Outcomes now ss))
]
