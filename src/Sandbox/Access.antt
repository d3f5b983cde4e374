-- ===== src/Sandbox/Access.antt =====
-- The properties of TaskAttempt (sandbox/models.py): what its user may do with it. The technical
-- evidence is read by a query.
use ticket_sandbox.Prelude.{
  suc, ◌≡◌, ◌↔◌, Bool, true, false, not, ◌&&◌, ◌||◌, List, none, some, any, ltb, nat_beq, is_empty,
  if◌then◌else◌, arith,
}
use ticket_sandbox.Sandbox.Records.{Status, EnvironmentStatus, MentorDecision, TaskAttempt}
use ticket_sandbox.Sandbox.Evidence.{
  Route, get_technical_evidence, is_completed, is_credit_attempt, credit_task_completed,
  has_passed_status,
}

-- `is_technically_completed`, which is `technical_locked` as well.
unfoldable pub technical_passed : TaskAttempt → Bool
technical_passed a = is_completed (get_technical_evidence Route.queried a)

abbrev pub is_extra_attempt : TaskAttempt → Bool
is_extra_attempt a = ltb 1 a.attempt_number

abbrev pub is_on_review : TaskAttempt → Bool
is_on_review a = elim a.status [ Status.on_review ↦ true | _ ↦ false ]

abbrev has_in_progress_status : TaskAttempt → Bool
has_in_progress_status a = elim a.status [ Status.in_progress ↦ true | _ ↦ false ]

abbrev is_ready : TaskAttempt → Bool
is_ready a = elim a.environment_status [ EnvironmentStatus.ready ↦ true | _ ↦ false ]

abbrev is_undecided : TaskAttempt → Bool
is_undecided a = elim a.mentor_decision [ MentorDecision.not_reviewed ↦ true | _ ↦ false ]

abbrev pub is_returned : TaskAttempt → Bool
is_returned a = elim a.mentor_decision [ MentorDecision.needs_revision ↦ true | _ ↦ false ]

abbrev pub mentor_approved : TaskAttempt → Bool
mentor_approved a = elim a.mentor_decision [ MentorDecision.approved ↦ true | _ ↦ false ]

unfoldable pub can_start_environment : TaskAttempt → Bool
unfolding technical_passed
can_start_environment a = not (technical_passed a) && is_empty a.container_name

unfoldable pub can_restart_environment : TaskAttempt → Bool
unfolding technical_passed
can_restart_environment a = not (technical_passed a)

unfoldable pub can_access_terminal : TaskAttempt → Bool
unfolding technical_passed
can_access_terminal a =
    if not a.is_current || a.environment_cleanup_requested
    then false
    else (if not (is_ready a)
        then false
        else (if is_empty a.container_name
              || is_empty a.terminal_container_name
              || is_empty a.terminal_url
            then false
            else (if is_on_review a || has_passed_status a
                then false
                else (if not (technical_passed a)
                    then true
                    else technical_passed a
                      && a.task.requires_manual_review
                      && is_credit_attempt a
                      && has_in_progress_status a))))

unfoldable pub can_rerun : TaskAttempt → Bool
unfolding technical_passed
can_rerun a = a.is_current && technical_passed a && has_passed_status a

-- `attempts` are all the attempts.
unfoldable pub can_go_next : List TaskAttempt → TaskAttempt → Bool
unfolding technical_passed credit_task_completed
can_go_next attempts a =
    if is_extra_attempt a
    then credit_task_completed attempts a.user_id a.task.id
    else technical_passed a

unfoldable pub waiting_for_mentor_review : TaskAttempt → Bool
unfolding technical_passed
waiting_for_mentor_review a =
    technical_passed a && a.task.requires_manual_review && is_on_review a && is_undecided a

unfoldable pub needs_text_revision : TaskAttempt → Bool
unfolding technical_passed
needs_text_revision a = technical_passed a && is_returned a

unfoldable pub can_edit_client_answer : TaskAttempt → Bool
unfolding technical_passed
can_edit_client_answer a =
    a.task.requires_manual_review
    && is_credit_attempt a
    && technical_passed a
    && not (is_on_review a || has_passed_status a)
    && (a.is_current || is_returned a)

-- Whether the task before it in its queue has been passed.
unfoldable pub is_available : List TaskAttempt → TaskAttempt → Bool
unfolding get_technical_evidence
is_available attempts a =
    nat_beq a.task.order 1
    || any
        (λ b.
          nat_beq b.user_id a.user_id
          && nat_beq b.task.queue a.task.queue
          && nat_beq (suc b.task.order) a.task.order
          && is_credit_attempt b
          && is_completed (get_technical_evidence Route.annotated b))
        attempts

pub data ReadState : Type 0 where
  no_feedback unread unknown read : ReadState

unfoldable pub mentor_feedback_read_state : TaskAttempt → ReadState
mentor_feedback_read_state a =
    if is_undecided a || is_empty a.mentor_feedback
    then ReadState.no_feedback
    else (elim a.mentor_feedback_seen_at [
      | none ↦ ReadState.unread
      | some seen ↦ elim a.mentor_reviewed_at [
        | none ↦ ReadState.unknown
        | some reviewed ↦ if ltb seen reviewed then ReadState.unread else ReadState.read
      ]
    ])

unfoldable pub has_unread_mentor_feedback : TaskAttempt → Bool
unfolding mentor_feedback_read_state
has_unread_mentor_feedback a = elim (mentor_feedback_read_state a) [
  | ReadState.unread ↦ true
  | _ ↦ false
]

-- An answer that waits for the mentor, and an attempt that can be run again, are closed: neither the
-- terminal nor the answer is open, and the environment can be neither started nor restarted.
pub closed_attempt :
    (a : TaskAttempt)
    → (waiting_for_mentor_review a || can_rerun a) ≡ true
    → (can_access_terminal a ≡ false)
      × (can_edit_client_answer a ≡ false)
      × (can_start_environment a ≡ false)
      × (can_restart_environment a ≡ false)
unfolding waiting_for_mentor_review can_rerun can_access_terminal can_edit_client_answer
    can_start_environment can_restart_environment
closed_attempt a h = ground arith

-- After the task is passed, the terminal is open exactly while the answer can still be edited, on
-- the current attempt, in progress, whose environment is ready and not to be cleaned up, with the
-- names of its containers and its address.
pub terminal_after_pass :
    (a : TaskAttempt)
    → technical_passed a ≡ true
    → (can_access_terminal a ≡ true) ↔ (
        (can_edit_client_answer a ≡ true)
        × (a.is_current ≡ true)
        × (a.status ≡ Status.in_progress)
        × (a.environment_status ≡ EnvironmentStatus.ready)
        × (a.environment_cleanup_requested ≡ false)
        × (is_empty a.container_name ≡ false)
        × (is_empty a.terminal_container_name ≡ false)
        × (is_empty a.terminal_url ≡ false))
unfolding can_access_terminal can_edit_client_answer
terminal_after_pass a p = (λ h. ground arith, λ v. ground arith)
