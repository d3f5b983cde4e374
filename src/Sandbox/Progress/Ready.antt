-- ===== src/Sandbox/Progress/Ready.antt =====
-- When the progress of sandbox/services/progress.py is complete.
use ticket_sandbox.Prelude.{
  ℕ, ◌+◌, ◌≡◌, refl, ◌∙◌, Bool, true, false, ◌&&◌, List, [], ◌∷◌, keep, any, all, nat_eq,
  Bool-cases, inl, inr, arith, find, Option-cases, some, is_empty,
}
use ticket_sandbox.Prelude.Sets.{set, contains, contains-head, contains-tail, IsNodup}
use ticket_sandbox.Prelude.Pigeonhole.{length-le-members}
use ticket_sandbox.Sandbox.Records.{Queue, Task, TaskAttempt}
use ticket_sandbox.Sandbox.Progress.Loop.{no_tally, tally}
use ticket_sandbox.Sandbox.Progress.{
  attempts_in_order, is_counted, task_ids, filled_progress, tasks_progress, Rows,
  SandboxQueueProgress, active_tasks, user_progress, find_completion, attach_completion,
  build_sandbox_queue_progress, build_sandbox_queue_progress_map,
}
use ticket_sandbox.Prelude.Text.{Text, text_beq}
use ticket_sandbox.Sandbox.Progress.Counted.{
  has_passed, passes, tally-passes, tally-IsNodup, any-in_order, any-counted, any-uncounted,
  full-members,
}

module _ (attempts : List TaskAttempt) (tasks : List Task) (user : ℕ)
    (distinct : IsNodup (task_ids tasks)) where
  abbrev completed : List ℕ
  completed =
      let counted = keep (is_counted user (task_ids tasks)) attempts in
      (tally no_tally (attempts_in_order counted)).completed_ids

  completed-any :
      (i : ℕ)
      → contains i completed ≡ any (passes i) (keep (is_counted user (task_ids tasks)) attempts)
  unfolding contains
  completed-any i =
      tally-passes i no_tally (attempts_in_order (keep (is_counted user (task_ids tasks)) attempts))
      ∙ any-in_order (passes i) (keep (is_counted user (task_ids tasks)) attempts)

  completed-inside : (i : ℕ) → contains i completed ≡ true → contains i (task_ids tasks) ≡ true
  completed-inside i h = elim (Bool-cases (contains i (task_ids tasks))) [
    | inl here ↦ here
    | inr there ↦
        let never = any-uncounted user i (task_ids tasks) attempts there in
        let found = completed-any i in ground arith
  ]

  completed-IsNodup : IsNodup completed
  completed-IsNodup =
      tally-IsNodup no_tally (attempts_in_order (keep (is_counted user (task_ids tasks)) attempts))
        tt

all-same :
    (p q : ℕ → Bool) (xs : List ℕ)
    → ((i : ℕ) → contains i xs ≡ true → p i ≡ q i)
    → all p xs ≡ all q xs
all-same p q [] h = refl
all-same p q (x ∷ xs) h =
    let here = h x (contains-head x xs) in
    let rest = all-same p q xs (λ i m. h i (contains-tail i x xs m)) in ground arith

-- The same, of the tasks that the progress is given.
tasks_progress-is_ready :
    (percent : ℕ → ℕ → ℕ) (attempts : List TaskAttempt) (queue : Queue) (tasks : List Task)
    (user : ℕ)
    → IsNodup (task_ids tasks)
    → let p = tasks_progress percent attempts queue tasks user in
      (p.is_ready ≡ all (has_passed attempts user) (task_ids tasks))
      × (p.passed_count + p.remaining_count ≡ p.total_count)
unfolding tasks_progress filled_progress
tasks_progress-is_ready percent attempts queue tasks user distinct =
    let ids = task_ids tasks in
    let xs = completed attempts tasks user distinct in
    let nodup = completed-IsNodup attempts tasks user distinct in
    let inside = completed-inside attempts tasks user distinct in
    let full = full-members xs ids nodup distinct inside in
    let same =
      all-same (λ i. contains i xs) (has_passed attempts user) ids
        (λ i m. completed-any attempts tasks user distinct i ∙ any-counted user i ids attempts m) in
    let fits = length-le-members xs ids nodup inside in (full ∙ same, omega arith)

module _ (percent : ℕ → ℕ → ℕ) (rows : Rows) (user : ℕ) (slug : Text) where
  -- The map of one user holds the user's progress with the completion.
  build-user :
      build_sandbox_queue_progress percent rows user slug
      ≡ attach_completion rows slug user (user_progress percent rows slug user)
  unfolding build_sandbox_queue_progress build_sandbox_queue_progress_map set contains
  build-user = ground arith

  user_progress-tasks :
      (queue : Queue)
      → find (λ q. text_beq q.slug slug && q.is_active) rows.queues ≡ some queue
      → is_empty (active_tasks rows queue) ≡ false
      → user_progress percent rows slug user
        ≡ tasks_progress percent rows.attempts queue (active_tasks rows queue) user
  unfolding user_progress
  user_progress-tasks queue found some_tasks = ground arith

  attach-counts :
      (p : SandboxQueueProgress)
      → let r = attach_completion rows slug user p in
        (r.is_ready ≡ p.is_ready)
        × (r.passed_count ≡ p.passed_count)
        × (r.remaining_count ≡ p.remaining_count)
        × (r.total_count ≡ p.total_count)
  unfolding attach_completion
  attach-counts p = elim (Option-cases (find_completion user slug rows.completions)) [
    | inl open_ended ↦ (ground arith, ground arith, ground arith, ground arith)
    | inr (c, done) ↦ (ground arith, ground arith, ground arith, ground arith)
  ]

-- The progress of a user in an active queue with active tasks is ready exactly when the user's first
-- attempt at every active task of the queue has passed; the tasks that have passed and those that
-- remain are the whole number of them. No two tasks have one number.
pub build_sandbox_queue_progress-is_ready :
    (percent : ℕ → ℕ → ℕ) (rows : Rows) (user : ℕ) (slug : Text) (queue : Queue)
    → find (λ q. text_beq q.slug slug && q.is_active) rows.queues ≡ some queue
    → is_empty (active_tasks rows queue) ≡ false
    → IsNodup (task_ids (active_tasks rows queue))
    → let p = build_sandbox_queue_progress percent rows user slug in
      (p.is_ready ≡ all (has_passed rows.attempts user) (task_ids (active_tasks rows queue)))
      × (p.passed_count + p.remaining_count ≡ p.total_count)
build_sandbox_queue_progress-is_ready percent rows user slug queue found some_tasks distinct =
    let p = tasks_progress percent rows.attempts queue (active_tasks rows queue) user in
    let whole = build-user percent rows user slug in
    let same = user_progress-tasks percent rows user slug queue found some_tasks in
    let (ready, passed, remaining, total) = attach-counts percent rows user slug p in
    let (r, sum) =
      tasks_progress-is_ready percent rows.attempts queue (active_tasks rows queue) user distinct in
    rw (whole) (rw (same) (ready ∙ r, ground arith))
