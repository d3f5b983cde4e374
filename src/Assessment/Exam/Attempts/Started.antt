-- ===== src/Assessment/Exam/Attempts/Started.antt =====
-- `start_exam_attempt` of assessment/services/attempts.py.
use ticket_sandbox.Prelude.{
  ℕ, suc, ◌+◌, ◌≤◌, ◌<◌, ◌≡◌, ◌⊎◌, refl, sym, ap, ◌∙◌, nat_eq, Bool, true, false, ◌||◌, ◌==◌, List,
  [], ◌∷◌, ◌++◌, Option, none, some, ok, raise_if, length, length-append, count, arith, Bool-cases,
  Option-cases, inl, inr, leb, >>=-eq-ok,
}
use ticket_sandbox.Prelude.Sets.{contains, IsNodup}
use ticket_sandbox.Prelude.Text.{Text}
use ticket_sandbox.Assessment.Constants.{ExamAttemptStatus, ServiceError}
use ticket_sandbox.Assessment.Questions.{Question}
use ticket_sandbox.Assessment.Random.{Random, IsRandom}
use ticket_sandbox.Assessment.Blueprint.{
  ExamBlueprint, question_count, validate_blueprint_question_pool,
}
use ticket_sandbox.Assessment.Selection.{select_questions_for_blueprint}
use ticket_sandbox.Assessment.Selection.Drawn.{select-total}
use ticket_sandbox.Assessment.Snapshot.{build_question_snapshot_data}
use ticket_sandbox.Assessment.Exam.Records.{Time, ExamQuestionSnapshot, ExamAttempt, is_in_progress}
use ticket_sandbox.Assessment.Exam.Flow.Loop.{positions}
use ticket_sandbox.Assessment.Exam.Attempts.{
  ExamAssignment, active_attempts, highest, last_attempt_number, new_attempt, create_snapshots,
  create_attempt, start_exam_attempt, seed_or, validate_assignment_for_start,
}

abbrev pub numbers : List ExamAttempt → List ℕ
numbers [] = []
numbers (a ∷ as') = a.attempt_number ∷ numbers as'

abbrev pub in_progress_count : List ExamAttempt → ℕ
in_progress_count as' = count (λ a. is_in_progress a.status) as'

above_last :
    (as' : List ExamAttempt) (n : ℕ)
    → last_attempt_number as' < n
    → contains n (numbers as') ≡ false
unfolding last_attempt_number contains
above_last [] n h = refl
above_last (a ∷ as') n h = ground (arith, above_last as' n)

contains-snoc : (k n : ℕ) (ks : List ℕ) → contains k (ks ++ n ∷ []) ≡ (contains k ks || k == n)
unfolding contains
contains-snoc k n [] = ground arith
contains-snoc k n (x ∷ ks) = ground (arith, contains-snoc k n ks)

IsNodup-snoc : (ks : List ℕ) (n : ℕ) → IsNodup ks → contains n ks ≡ false → IsNodup (ks ++ n ∷ [])
unfolding contains
IsNodup-snoc [] n h f = (refl, tt)
IsNodup-snoc (k ∷ ks) n h f = ground (arith, IsNodup-snoc ks n, contains-snoc k n ks)

numbers-snoc :
    (as' : List ExamAttempt) (a : ExamAttempt)
    → numbers (as' ++ a ∷ []) ≡ numbers as' ++ a.attempt_number ∷ []
numbers-snoc [] a = refl
numbers-snoc (b ∷ as') a = ap (λ ns. b.attempt_number ∷ ns) (numbers-snoc as' a)

in_progress-snoc :
    (as' : List ExamAttempt) (a : ExamAttempt)
    → is_in_progress a.status ≡ true
    → in_progress_count (as' ++ a ∷ []) ≡ suc (in_progress_count as')
in_progress-snoc [] a h = ground arith
in_progress-snoc (b ∷ as') a h = ground (arith, in_progress-snoc as' a h)

highest-none :
    (as' : List ExamAttempt) → highest (active_attempts as') ≡ none → in_progress_count as' ≡ 0
unfolding highest
highest-none [] h = refl
highest-none (a ∷ as') h = elim (Bool-cases (is_in_progress a.status)) [
  | inl act ↦ elim (Option-cases (highest (active_attempts as'))) [
    | inl e ↦ ground arith
    | inr (b, e) ↦ ground arith
  ]
  | inr idle ↦ ground (arith, highest-none as')
]

highest-active :
    (as' : List ExamAttempt) (b : ExamAttempt)
    → highest (active_attempts as') ≡ some b
    → is_in_progress b.status ≡ true
unfolding highest
highest-active [] b h = cc
highest-active (a ∷ as') b h = elim (Bool-cases (is_in_progress a.status)) [
  | inl act ↦ elim (Option-cases (highest (active_attempts as'))) [
    | inl e ↦ ground arith
    | inr (c, e) ↦ ground (arith, highest-active as' c e)
  ]
  | inr idle ↦ ground (arith, highest-active as' b)
]

-- Fresh snapshots: numbered on from a position, none opened, none answered.
abbrev pub FreshFrom : ℕ → List ExamQuestionSnapshot → Type 0
FreshFrom p [] = Unit
FreshFrom p (s ∷ ss) =
    (s.position ≡ p) × (s.started_at ≡ none) × (s.answer ≡ none) × FreshFrom (p + 1) ss

-- What the call promises when it starts a new attempt.
pub record IsStarted (bank : List Question) (before after : ExamAssignment) (attempt : ExamAttempt)
    : Type 0 where
  pub none_before : in_progress_count before.attempts ≡ 0
  pub added : after ≡ record before { attempts = before.attempts ++ attempt ∷ [] }
  pub one_after : in_progress_count after.attempts ≡ 1
  pub within : length after.attempts ≤ after.attempt_limit
  pub active : attempt.status ≡ ExamAttemptStatus.in_progress
  pub no_result : attempt.result ≡ none
  pub new_number : contains attempt.attempt_number (numbers before.attempts) ≡ false
  pub fresh : FreshFrom 1 attempt.question_snapshots
  pub positions_distinct : IsNodup (positions attempt.question_snapshots)
  pub counted : length attempt.question_snapshots ≡ question_count before.campaign.blueprint

FreshFrom-above :
    (ss : List ExamQuestionSnapshot) (p k : ℕ)
    → FreshFrom p ss
    → k < p
    → contains k (positions ss) ≡ false
unfolding contains
FreshFrom-above [] p k f h = refl
FreshFrom-above (s ∷ ss) p k f h = ground (arith, FreshFrom-above ss (p + 1) k)

FreshFrom-IsNodup :
    (ss : List ExamQuestionSnapshot) (p : ℕ) → FreshFrom p ss → IsNodup (positions ss)
FreshFrom-IsNodup [] p f = tt
FreshFrom-IsNodup (s ∷ ss) p f =
    ground (arith, FreshFrom-above ss (p + 1) s.position, FreshFrom-IsNodup ss (p + 1))

module _ (casefold : Text → Text) (random : Random) (token : Text) where
  create_snapshots-FreshFrom :
      (b : Bool) (seed : Text) (p : ℕ) (qs : List Question) {ss : List ExamQuestionSnapshot}
      → create_snapshots casefold random token b seed p qs ≡ ok ss
      → FreshFrom p ss × (length ss ≡ length qs)
  unfolding create_snapshots
  create_snapshots-FreshFrom b seed p [] h = ground arith
  create_snapshots-FreshFrom b seed p (q ∷ qs) h =
      let (d, made, h1) = >>=-eq-ok (build_question_snapshot_data casefold random q seed b) _ h in
      let (rest, more, h2) =
        >>=-eq-ok (create_snapshots casefold random token b seed (p + 1) qs) _ h1 in
      ground (arith, create_snapshots-FreshFrom b seed (p + 1) qs {ss = rest} more)

  select-counted :
      IsRandom random
      → (bank : List Question) (b : ExamBlueprint) (seed : Text) {qs : List Question}
      → select_questions_for_blueprint random bank b seed ≡ ok qs
      → length qs ≡ question_count b
  unfolding select_questions_for_blueprint
  select-counted laws bank b seed {qs} h =
      let (status, valid, h1) = >>=-eq-ok (validate_blueprint_question_pool bank b) _ h in
      let (qs', drawn, counted, good) = select-total random laws bank b seed status valid in
      let same : qs' ≡ qs = ground arith in rw (sym same) counted

  last_attempt_number-fresh :
      (as' : List ExamAttempt) → contains (last_attempt_number as' + 1) (numbers as') ≡ false
  last_attempt_number-fresh as' = above_last as' (last_attempt_number as' + 1) (omega arith)

  create_attempt-IsStarted :
      IsRandom random
      → (bank : List Question) (before : ExamAssignment) (seed : Option Text) (now : Time)
        (attempt : ExamAttempt) (new : Bool) (after : ExamAssignment)
      → in_progress_count before.attempts ≡ 0
      → create_attempt casefold random token bank before seed now ≡ ok (attempt, new, after)
      → (new ≡ true) × IsStarted bank before after attempt
  unfolding create_attempt new_attempt
  create_attempt-IsStarted laws bank before seed now attempt new after none_before h =
      let (_, valid, h1) = >>=-eq-ok (validate_assignment_for_start before now) _ h in
      let (_, room, h2) =
        >>=-eq-ok
          (raise_if (leb before.attempt_limit (length before.attempts))
            ServiceError.attempts_used_up)
          _ h1 in
      let s = seed_or seed token in
      let b = before.campaign.blueprint in
      let (qs, drawn, h3) = >>=-eq-ok (select_questions_for_blueprint random bank b s) _ h2 in
      let (ss, made, h4) =
        >>=-eq-ok (create_snapshots casefold random token b.shuffle_answer_options s 1 qs) _ h3 in
      let (fresh, long) =
        create_snapshots-FreshFrom b.shuffle_answer_options s 1 qs {ss = ss} made in
      let made_attempt : attempt ≡ new_attempt before s ss = ground arith in
      let saved : after ≡ record before { attempts = before.attempts ++ attempt ∷ [] } =
        ground arith in
      let active : is_in_progress attempt.status ≡ true =
        rw made_attempt (unfold is_in_progress in refl) in
      let snaps : attempt.question_snapshots ≡ ss = rw made_attempt refl in
      (
        ground arith,
        record {
          none_before = none_before;
          added = saved;
          one_after =
              rw saved (in_progress-snoc before.attempts attempt active ∙ ap suc none_before);
          within = rw saved (ground (arith, length-append before.attempts (attempt ∷ [])));
          active = rw made_attempt refl;
          no_result = rw made_attempt refl;
          new_number = rw made_attempt (last_attempt_number-fresh before.attempts);
          fresh = rw snaps fresh;
          positions_distinct = rw snaps (FreshFrom-IsNodup ss 1 fresh);
          counted = rw snaps (long ∙ select-counted laws bank b s {qs = qs} drawn);
        },
      )

  -- The random generator being what its documentation says: a call that starts an attempt found none
  -- in progress, and adds one under a number not used before, now the only one in progress and within
  -- the limit; its questions are as many as the quotas ask for, numbered from 1, none opened or
  -- answered. A call that starts none changes nothing, and returns an attempt in progress.
  pub start_exam_attempt-IsStarted :
      IsRandom random
      → (bank : List Question) (before : ExamAssignment) (seed : Option Text) (now : Time)
        (attempt : ExamAttempt) (new : Bool) (after : ExamAssignment)
      → start_exam_attempt casefold random token bank before seed now ≡ ok (attempt, new, after)
      → ((new ≡ true) × IsStarted bank before after attempt)
        ⊎ ((new ≡ false) × (after ≡ before) × (is_in_progress attempt.status ≡ true))
  unfolding start_exam_attempt
  start_exam_attempt-IsStarted laws bank before seed now attempt new after h =
      elim (Option-cases (highest (active_attempts before.attempts))) [
        | inl idle ↦ inl (
            create_attempt-IsStarted laws bank before seed now attempt new after
              (highest-none before.attempts idle) (ground arith))
        | inr (b, e) ↦
            let running = highest-active before.attempts b e in
            inr (ground arith, ground arith, ground arith)
      ]
