-- ===== src/Assessment/Exam/Flow/Loop.antt =====
-- The loop of `open_current_question` in assessment/services/question_flow.py, round by round.
use ticket_sandbox.Prelude.{
  ℕ, suc, ◌≤◌, ◌<◌, ◌≡◌, refl, ◌∙◌, nat_eq, nat_beq, nat_beq_iff, true, false, List, [], ◌∷◌,
  Option, none, some, find, count, arith, Bool-cases, Option-cases, inl, inr,
}
use ticket_sandbox.Prelude.Sets.{contains, IsNodup, contains-head, contains-tail}
use ticket_sandbox.Assessment.Exam.Records.{Time, ExamQuestionSnapshot, ExamAnswer}
use ticket_sandbox.Assessment.Exam.Answers.{
  deadline, timeout_answer, with_answer, update_snapshot, find_snapshot,
}
use ticket_sandbox.Assessment.Exam.Flow.{is_unanswered, opened}
use ticket_sandbox.Assessment.Exam.Flow.Pass.{pass, pass-answered, pass-new, pass-live, pass-late}

abbrev pub positions : List ExamQuestionSnapshot → List ℕ
positions [] = []
positions (s ∷ ss) = s.position ∷ positions ss

abbrev pub current : List ExamQuestionSnapshot → Option ExamQuestionSnapshot
current ss = find is_unanswered ss

unanswered_none : (s : ExamQuestionSnapshot) → is_unanswered s ≡ true → s.answer ≡ none
unanswered_none s h = ground arith

answered_some :
    (s : ExamQuestionSnapshot) → is_unanswered s ≡ false → (a : ExamAnswer) × (s.answer ≡ some a)
answered_some s h = elim (Option-cases s.answer) [ inl e ↦ ground arith | inr (a, e) ↦ (a, e) ]

-- The current question has no answer, and stands at its position.
pub current-unanswered :
    (ss : List ExamQuestionSnapshot) {s : ExamQuestionSnapshot}
    → current ss ≡ some s
    → s.answer ≡ none
current-unanswered [] h = cc
current-unanswered (x ∷ xs) {s} h = elim (Bool-cases (is_unanswered x)) [
  | inl here ↦ let e : x ≡ s = ground arith in rw (← e) (unanswered_none x here)
  | inr there ↦ current-unanswered xs {s = s} (ground arith)
]

current-position :
    (ss : List ExamQuestionSnapshot) {s : ExamQuestionSnapshot}
    → current ss ≡ some s
    → contains s.position (positions ss) ≡ true
current-position [] h = cc
current-position (x ∷ xs) {s} h = elim (Bool-cases (is_unanswered x)) [
  | inl here ↦ let e : x ≡ s = ground arith in rw (← e) (contains-head x.position (positions xs))
  | inr there ↦
      contains-tail s.position x.position (positions xs)
        (current-position xs {s = s} (ground arith))
]

-- A position further down is not the head's.
apart : (p q : ℕ) (ps : List ℕ) → contains q ps ≡ false → contains p ps ≡ true → nat_beq q p ≡ false
apart p q ps h m = elim (Bool-cases (nat_beq q p)) [
  | inl same ↦ let e : contains q ps ≡ true = rw ((nat_beq_iff q p).0 same) m in cc
  | inr other ↦ other
]

pub found_at :
    (ss : List ExamQuestionSnapshot) {s : ExamQuestionSnapshot}
    → IsNodup (positions ss)
    → current ss ≡ some s
    → find_snapshot s.position ss ≡ some s
found_at [] n h = cc
found_at (x ∷ xs) {s} n h = elim (Bool-cases (is_unanswered x)) [
  | inl here ↦ let e : x ≡ s = ground arith in rw (← e) (ground arith)
  | inr there ↦ ground (
    arith,
    found_at xs {s = s} n.1,
    current-position xs {s = s},
    apart s.position x.position (positions xs) n.0,
  )
]

pub positions-update :
    (p : ℕ) (f : ExamQuestionSnapshot → ExamQuestionSnapshot) (ss : List ExamQuestionSnapshot)
    → ((s : ExamQuestionSnapshot) → (f s).position ≡ s.position)
    → positions (update_snapshot p f ss) ≡ positions ss
positions-update p f [] same = refl
positions-update p f (x ∷ xs) same = ground (arith, positions-update p f xs same, same x)

pub pass-none :
    (now : Time) (ss : List ExamQuestionSnapshot) → current ss ≡ none → pass now ss ≡ (none, ss)
unfolding pass
pass-none now [] h = refl
pass-none now (x ∷ xs) h = elim (Bool-cases (is_unanswered x)) [
  | inl here ↦ ground arith
  | inr there ↦
      let (a, e) = answered_some x there in
      rw (pass-answered now x xs e, pass-none now xs (ground arith)) refl
]

module _ (now : Time) where
  pub pass-current_new :
      (ss : List ExamQuestionSnapshot) {s : ExamQuestionSnapshot}
      → IsNodup (positions ss)
      → current ss ≡ some s
      → s.started_at ≡ none
      → pass now ss ≡ (some (opened now s), update_snapshot s.position (opened now) ss)
  pass-current_new [] n h st = cc
  pass-current_new (x ∷ xs) {s} n h st = elim (Bool-cases (is_unanswered x)) [
    | inl here ↦
        let e : x ≡ s = ground arith in
        rw (← e) (pass-new now x xs (unanswered_none x here) (rw e st) ∙ ground arith)
    | inr there ↦
        let (a, e) = answered_some x there in
        ground (
          arith,
          pass-answered now x xs e,
          pass-current_new xs {s = s} n.1,
          current-position xs {s = s},
          apart s.position x.position (positions xs) n.0,
        )
  ]

  pub pass-current_live :
      (ss : List ExamQuestionSnapshot) {s : ExamQuestionSnapshot} {t : Time}
      → current ss ≡ some s
      → s.started_at ≡ some t
      → now < deadline s t
      → pass now ss ≡ (some s, ss)
  pass-current_live [] h st early = cc
  pass-current_live (x ∷ xs) {s} {t} h st early = elim (Bool-cases (is_unanswered x)) [
    | inl here ↦
        let e : x ≡ s = ground arith in
        ground (arith, pass-live now x xs {t = t} (unanswered_none x here) (rw e st) (rw e early))
    | inr there ↦
        let (a, e) = answered_some x there in
        ground (arith, pass-answered now x xs e, pass-current_live xs {s = s} {t = t})
  ]

  -- A timeout at the current question is what the pass does there.
  pub pass-current_late :
      (ss : List ExamQuestionSnapshot) {s : ExamQuestionSnapshot} {t : Time}
      → IsNodup (positions ss)
      → current ss ≡ some s
      → s.started_at ≡ some t
      → deadline s t ≤ now
      → pass now (update_snapshot s.position (with_answer (timeout_answer s t now)) ss)
        ≡ pass now ss
  pass-current_late [] n h st over = cc
  pass-current_late (x ∷ xs) {s} {t} n h st over = elim (Bool-cases (is_unanswered x)) [
    | inl here ↦
        let e : x ≡ s = ground arith in
        rw (← e) (
          ground (
            arith,
            pass-late now x xs {t = t} (unanswered_none x here) (rw e st) (rw e over),
            pass-answered now (with_answer (timeout_answer x t now) x) xs
                {a = timeout_answer x t now} refl,
          ))
    | inr there ↦
        let (a, e) = answered_some x there in
        let rest = update_snapshot s.position (with_answer (timeout_answer s t now)) xs in
        ground (
          arith,
          pass-answered now x xs e,
          pass-answered now x rest e,
          pass-current_late xs {s = s} {t = t} n.1,
          current-position xs {s = s},
          apart s.position x.position (positions xs) n.0,
        )
  ]

pub fewer :
    (ss : List ExamQuestionSnapshot) {s : ExamQuestionSnapshot} (a : ExamAnswer)
    → IsNodup (positions ss)
    → current ss ≡ some s
    → suc (count is_unanswered (update_snapshot s.position (with_answer a) ss))
      ≡ count is_unanswered ss
fewer [] a n h = cc
fewer (x ∷ xs) {s} a n h = elim (Bool-cases (is_unanswered x)) [
  | inl here ↦ let e : x ≡ s = ground arith in rw (← e) (ground arith)
  | inr there ↦ ground (
    arith,
    fewer xs {s = s} a n.1,
    current-position xs {s = s},
    apart s.position x.position (positions xs) n.0,
  )
]
