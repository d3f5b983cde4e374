-- ===== src/Sandbox/Tests.antt =====
-- Two tasks, an attempt at each, and what the progress and the properties say of them.
use ticket_sandbox.Prelude.{
  ℕ, ◌+◌, ◌*◌, ◌/◌, ◌≡◌, ◌↔◌, refl, true, false, [], ◌∷◌, none, some, all, find, is_empty, nat_eq,
  ◌&&◌, ◌||◌,
}
use ticket_sandbox.Prelude.Sets.{contains, IsNodup}
use ticket_sandbox.Prelude.Text.{codes, text_beq}
use ticket_sandbox.Sandbox.Records.{
  MentorDecision, Status, CheckStatus, EnvironmentStatus, CheckResult, CheckRun, Queue, Task,
  TaskAttempt,
}
use ticket_sandbox.Sandbox.Evidence.{get_technical_evidence}
use ticket_sandbox.Sandbox.Access.{
  technical_passed, can_access_terminal, can_edit_client_answer, can_start_environment,
  can_restart_environment, can_rerun, waiting_for_mentor_review, closed_attempt,
  terminal_after_pass,
}
use ticket_sandbox.Sandbox.Progress.{Rows, build_sandbox_queue_progress, active_tasks, task_ids}
use ticket_sandbox.Sandbox.Progress.Counted.{has_passed}
use ticket_sandbox.Sandbox.Progress.Ready.{build_sandbox_queue_progress-is_ready}

abbrev level_one : Queue
level_one = record { id = 1; slug = codes "l1"; name = codes "Level 1"; is_active = true }

abbrev mail : Task
mail = record { id = 11; queue = 1; order = 2; requires_manual_review = true; is_active = true }

abbrev disk : Task
disk = record { id = 12; queue = 1; order = 1; requires_manual_review = false; is_active = true }

abbrev good_run : CheckRun
good_run = record { id = 5; result = CheckResult.passed; exit_code = 0; created_at = 70 }

abbrev bad_run : CheckRun
bad_run = record { id = 4; result = CheckResult.failed; exit_code = 1; created_at = 60 }

abbrev at_mail : TaskAttempt
at_mail = record {
  id = 101;
  user_id = 9;
  task = mail;
  attempt_number = 1;
  is_current = true;
  status = Status.in_progress;
  check_status = CheckStatus.passed;
  environment_status = EnvironmentStatus.ready;
  environment_cleanup_requested = false;
  technical_passed_at = none;
  container_name = codes "task-101";
  terminal_container_name = codes "terminal-101";
  terminal_url = codes "/terminal/101";
  mentor_decision = MentorDecision.not_reviewed;
  mentor_feedback = [];
  mentor_reviewed_at = none;
  mentor_feedback_seen_at = none;
  check_runs = good_run ∷ bad_run ∷ [];
}

abbrev at_disk : TaskAttempt
at_disk = record at_mail {
  id = 102;
  task = disk;
  status = Status.passed;
  technical_passed_at = some 80;
  check_runs = [];
}

abbrev rows : Rows
rows = record {
  queues = level_one ∷ [];
  tasks = mail ∷ disk ∷ [];
  attempts = at_disk ∷ at_mail ∷ [];
  completions = [];
}

-- Division in place of the rounded floating-point number.
abbrev percent : ℕ → ℕ → ℕ
percent c t = c * 100 / t

queue_found : find (λ q. text_beq q.slug (codes "l1") && q.is_active) rows.queues ≡ some level_one
unfolding text_beq
queue_found = refl

some_tasks : is_empty (active_tasks rows level_one) ≡ false
unfolding active_tasks
some_tasks = refl

distinct_tasks : IsNodup (task_ids (active_tasks rows level_one))
unfolding active_tasks contains
distinct_tasks = (refl, (refl, tt))

both_passed : all (has_passed rows.attempts 9) (task_ids (active_tasks rows level_one)) ≡ true
unfolding active_tasks get_technical_evidence
both_passed = refl

build_sandbox_queue_progress-is_ready_example :
    let p = build_sandbox_queue_progress percent rows 9 (codes "l1") in
    (p.is_ready ≡ all (has_passed rows.attempts 9) (task_ids (active_tasks rows level_one)))
    × (p.passed_count + p.remaining_count ≡ p.total_count)
build_sandbox_queue_progress-is_ready_example =
    build_sandbox_queue_progress-is_ready percent rows 9 (codes "l1") level_one queue_found
      some_tasks distinct_tasks

sent :
    (waiting_for_mentor_review (record at_mail { status = Status.on_review })
      || can_rerun (record at_mail { status = Status.on_review }))
    ≡ true
unfolding waiting_for_mentor_review can_rerun get_technical_evidence
sent = refl

closed_attempt_example :
    (can_access_terminal (record at_mail { status = Status.on_review }) ≡ false)
    × (can_edit_client_answer (record at_mail { status = Status.on_review }) ≡ false)
    × (can_start_environment (record at_mail { status = Status.on_review }) ≡ false)
    × (can_restart_environment (record at_mail { status = Status.on_review }) ≡ false)
closed_attempt_example = closed_attempt (record at_mail { status = Status.on_review }) sent

mail_passed : technical_passed at_mail ≡ true
unfolding technical_passed get_technical_evidence
mail_passed = refl

terminal_after_pass_example : (can_access_terminal at_mail ≡ true) ↔ (
    (can_edit_client_answer at_mail ≡ true)
    × (at_mail.is_current ≡ true)
    × (at_mail.status ≡ Status.in_progress)
    × (at_mail.environment_status ≡ EnvironmentStatus.ready)
    × (at_mail.environment_cleanup_requested ≡ false)
    × (is_empty at_mail.container_name ≡ false)
    × (is_empty at_mail.terminal_container_name ≡ false)
    × (is_empty at_mail.terminal_url ≡ false))
terminal_after_pass_example = terminal_after_pass at_mail mail_passed

terminal_open : can_access_terminal at_mail ≡ true
unfolding can_access_terminal get_technical_evidence
terminal_open = refl
