-- ===== src/Sandbox/Progress/Loop.antt =====
-- The loop of sandbox/services/progress.py over the credit attempts of a user.
use ticket_sandbox.Prelude.{ℕ, ◌+◌, Bool, true, false, List, [], ◌∷◌, ◌++◌, nat_eq, if◌then◌else◌}
use ticket_sandbox.Prelude.Sets.{contains}
use ticket_sandbox.Sandbox.Records.{TaskAttempt}
use ticket_sandbox.Sandbox.Evidence.{
  Route, get_technical_evidence, is_completed, ProgressDiagnostic, diagnose_technical_evidence,
}
use ticket_sandbox.Sandbox.Access.{
  is_returned, mentor_approved, has_unread_mentor_feedback, mentor_feedback_read_state, ReadState,
  is_on_review,
}

-- The variables of the loop over the attempts of a user.
pub record Tally : Type 0 where
  pub completed_ids : List ℕ
  pub on_review : ℕ
  pub needs_revision : ℕ
  pub unsubmitted : ℕ
  pub unread : ℕ
  pub approved : ℕ
  pub unknown_feedback : ℕ
  pub found : List ProgressDiagnostic

abbrev pub no_tally : Tally
no_tally = record {
  completed_ids = [];
  on_review = 0;
  needs_revision = 0;
  unsubmitted = 0;
  unread = 0;
  approved = 0;
  unknown_feedback = 0;
  found = [];
}

-- `completed_ids.add(...)`
unfoldable pub add_once : ℕ → List ℕ → List ℕ
unfolding contains
add_once i ids = if contains i ids then ids else i ∷ ids

abbrev pub has_success : TaskAttempt → Bool
has_success a = is_completed (get_technical_evidence Route.annotated a)

abbrev is_unknown : ReadState → Bool
is_unknown ReadState.unknown = true
is_unknown _ = false

-- The answer of an attempt at a task with manual review.
unfoldable pub tally_answer : Tally → TaskAttempt → Tally
tally_answer t a =
    if is_returned a
    then (record t { needs_revision = t.needs_revision + 1 })
    else (if mentor_approved a
        then (record t { approved = t.approved + 1 })
        else (if is_on_review a
            then (record t { on_review = t.on_review + 1 })
            else (if has_success a then (record t { unsubmitted = t.unsubmitted + 1 }) else t)))

unfoldable pub tally_feedback : Tally → TaskAttempt → Tally
tally_feedback t a =
    if has_unread_mentor_feedback a
    then (record t { unread = t.unread + 1 })
    else (if is_unknown (mentor_feedback_read_state a)
        then (record t { unknown_feedback = t.unknown_feedback + 1 })
        else t)

unfoldable pub tally_technical : Tally → TaskAttempt → Tally
unfolding add_once
tally_technical t a = record t {
  completed_ids = if has_success a then add_once a.task.id t.completed_ids else t.completed_ids;
  found = t.found ++ diagnose_technical_evidence a;
}

-- `if attempt.task.requires_manual_review: ...`
unfoldable pub tally_review : Bool → Tally → TaskAttempt → Tally
unfolding tally_answer tally_feedback
tally_review false t a = t
tally_review true t a = tally_feedback (tally_answer t a) a

unfoldable pub tally_attempt : Tally → TaskAttempt → Tally
unfolding tally_technical tally_review
tally_attempt t a = tally_review a.task.requires_manual_review (tally_technical t a) a

unfoldable pub tally : Tally → List TaskAttempt → Tally
unfolding tally_attempt
tally t [] = t
tally t (a ∷ attempts) = tally (tally_attempt t a) attempts
