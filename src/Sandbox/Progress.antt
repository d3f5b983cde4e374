-- ===== src/Sandbox/Progress.antt =====
-- sandbox/services/progress.py: the progress of users in the tasks of a queue. `percent c t` is
-- Python's `round(c / t * 100)` on floating-point numbers, a parameter.
pub mod Loop
pub mod Counted
pub mod Ready
use ticket_sandbox.Prelude.{
  ℕ, suc, ◌+◌, ◌-◌, ◌≡◌, refl, Bool, true, false, not, ◌&&◌, ◌||◌, List, [], ◌∷◌, ◌++◌, map, Option,
  none, some, find, keep, any, all, ltb, leb, nat_beq, nat_eq, length, is_empty, if◌then◌else◌,
}
use ticket_sandbox.Prelude.Sets.{contains, set}
use ticket_sandbox.Prelude.Text.{Text, text_beq}
use ticket_sandbox.Sandbox.Records.{
  Time, Status, Queue, Task, TaskAttempt, SandboxProgramCompletion,
}
use ticket_sandbox.Sandbox.Evidence.{
  Route, get_technical_evidence, is_completed, is_credit_attempt, ProgressDiagnostic,
  diagnose_technical_evidence,
}
use ticket_sandbox.Sandbox.Access.{
  is_returned, mentor_approved, has_unread_mentor_feedback, mentor_feedback_read_state, ReadState,
  is_on_review,
}
use ticket_sandbox.Sandbox.Progress.Loop.{Tally, no_tally, tally}

pub record SandboxQueueProgress : Type 0 where
  pub queue_exists : Bool
  pub queue_slug : Text
  pub queue_name : Text
  pub total_count : ℕ
  pub passed_count : ℕ
  pub remaining_count : ℕ
  pub on_review_count : ℕ
  pub progress_percent : ℕ
  pub is_ready : Bool
  pub needs_revision_count : ℕ
  pub unsubmitted_count : ℕ
  pub unread_feedback_count : ℕ
  pub approved_answer_count : ℕ
  pub feedback_read_state_unknown_count : ℕ
  pub required_task_ids : List ℕ
  pub technically_completed_task_ids : List ℕ
  pub diagnostics : List ProgressDiagnostic
  pub completion : Option SandboxProgramCompletion

-- The rows that the progress reads.
pub record Rows : Type 0 where
  pub queues : List Queue
  pub tasks : List Task
  pub attempts : List TaskAttempt
  pub completions : List SandboxProgramCompletion

abbrev empty_progress : Text → Bool → Text → SandboxQueueProgress
empty_progress slug queue_exists name = record {
  queue_exists = queue_exists;
  queue_slug = slug;
  queue_name = name;
  total_count = 0;
  passed_count = 0;
  remaining_count = 0;
  on_review_count = 0;
  progress_percent = 0;
  is_ready = false;
  needs_revision_count = 0;
  unsubmitted_count = 0;
  unread_feedback_count = 0;
  approved_answer_count = 0;
  feedback_read_state_unknown_count = 0;
  required_task_ids = [];
  technically_completed_task_ids = [];
  diagnostics = [];
  completion = none;
}

-- `order_by("order", "pk")`
unfoldable pub insert_task : Task → List Task → List Task
insert_task t [] = t ∷ []
insert_task t (x ∷ xs) =
    let rest = insert_task t xs in
    if ltb t.order x.order || (nat_beq t.order x.order && leb t.id x.id)
    then t ∷ x ∷ xs
    else x ∷ rest

unfoldable pub tasks_in_order : List Task → List Task
unfolding insert_task
tasks_in_order [] = []
tasks_in_order (t ∷ ts) = insert_task t (tasks_in_order ts)

-- `order_by("user_id", "task_id")`, of the attempts of one user.
unfoldable pub insert_attempt : TaskAttempt → List TaskAttempt → List TaskAttempt
insert_attempt a [] = a ∷ []
insert_attempt a (x ∷ xs) =
    let rest = insert_attempt a xs in if leb a.task.id x.task.id then a ∷ x ∷ xs else x ∷ rest

unfoldable pub attempts_in_order : List TaskAttempt → List TaskAttempt
unfolding insert_attempt
attempts_in_order [] = []
attempts_in_order (a ∷ as') = insert_attempt a (attempts_in_order as')

-- The credit attempts of a user at the tasks.
unfoldable pub is_counted : ℕ → List ℕ → TaskAttempt → Bool
unfolding contains
is_counted user ids a = nat_beq a.user_id user && contains a.task.id ids && is_credit_attempt a

abbrev pub task_ids : List Task → List ℕ
task_ids tasks = map (λ t. t.id) tasks

unfoldable pub active_tasks : Rows → Queue → List Task
unfolding tasks_in_order
active_tasks rows queue =
    tasks_in_order (keep (λ t. nat_beq t.queue queue.id && t.is_active) rows.tasks)

-- `attach_completion`: the dict of completions keeps the last row of a user.
unfoldable pub find_completion :
    ℕ → Text → List SandboxProgramCompletion → Option SandboxProgramCompletion
unfolding text_beq
find_completion user slug [] = none
find_completion user slug (c ∷ cs) = elim (find_completion user slug cs) [
  | some d ↦ some d
  | none ↦ if nat_beq c.user_id user && text_beq c.program_key slug then some c else none
]

unfoldable pub attach_completion : Rows → Text → ℕ → SandboxQueueProgress → SandboxQueueProgress
unfolding find_completion
attach_completion rows slug user p = elim (find_completion user slug rows.completions) [
  | none ↦ p
  | some c ↦ record p { completion = some c }
]

module _ (percent : ℕ → ℕ → ℕ) where
  unfoldable pub filled_progress : Queue → List ℕ → Tally → SandboxQueueProgress
  filled_progress queue ids t = record {
    queue_exists = true;
    queue_slug = queue.slug;
    queue_name = queue.name;
    total_count = length ids;
    passed_count = length t.completed_ids;
    remaining_count = length ids - length t.completed_ids;
    on_review_count = t.on_review;
    progress_percent = percent (length t.completed_ids) (length ids);
    is_ready = nat_beq (length t.completed_ids) (length ids);
    needs_revision_count = t.needs_revision;
    unsubmitted_count = t.unsubmitted;
    unread_feedback_count = t.unread;
    approved_answer_count = t.approved;
    feedback_read_state_unknown_count = t.unknown_feedback;
    required_task_ids = ids;
    technically_completed_task_ids = keep (λ i. contains i t.completed_ids) ids;
    diagnostics = t.found;
    completion = none;
  }

  -- The progress of a user in a queue with tasks.
  unfoldable pub tasks_progress : List TaskAttempt → Queue → List Task → ℕ → SandboxQueueProgress
  unfolding filled_progress tally attempts_in_order is_counted
  tasks_progress attempts queue tasks user =
      let counted = keep (is_counted user (task_ids tasks)) attempts in
      filled_progress queue (task_ids tasks) (tally no_tally (attempts_in_order counted))

  unfoldable pub user_progress : Rows → Text → ℕ → SandboxQueueProgress
  unfolding tasks_progress active_tasks text_beq
  user_progress rows slug user =
      elim (find (λ q. text_beq q.slug slug && q.is_active) rows.queues) [
        | none ↦ empty_progress slug false []
        | some queue ↦
            let tasks = active_tasks rows queue in
            if is_empty tasks
            then empty_progress slug true queue.name
            else tasks_progress rows.attempts queue tasks user
      ]

  unfoldable pub build_sandbox_queue_progress_map :
      Rows → List ℕ → Text → List (ℕ × SandboxQueueProgress)
  unfolding user_progress attach_completion set
  build_sandbox_queue_progress_map rows users slug =
      map (λ u. (u, attach_completion rows slug u (user_progress rows slug u))) (set users)

  unfoldable pub build_sandbox_queue_progress : Rows → ℕ → Text → SandboxQueueProgress
  unfolding build_sandbox_queue_progress_map
  build_sandbox_queue_progress rows user slug =
      elim (find (λ p. nat_beq p.0 user) (build_sandbox_queue_progress_map rows (user ∷ []) slug)) [
        | none ↦ empty_progress slug false []
        | some p ↦ p.1
      ]
