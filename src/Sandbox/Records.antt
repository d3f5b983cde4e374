-- ===== src/Sandbox/Records.antt =====
-- The tables of sandbox/models.py that the evidence, the progress and the properties of an attempt
-- read. The runs of an attempt stand in its row, and the task in the rows of its attempts.
use ticket_sandbox.Prelude.{ℕ, Bool, List, Option}
use ticket_sandbox.Prelude.Text.{Text}

-- Microseconds.
abbrev pub Time : Type 0
Time = ℕ

pub data MentorDecision : Type 0 where
  not_reviewed approved needs_revision : MentorDecision

pub data Status : Type 0 where
  fresh in_progress on_review failed passed : Status

pub data CheckStatus : Type 0 where
  idle running passed failed error : CheckStatus

pub data EnvironmentStatus : Type 0 where
  idle starting ready restarting error : EnvironmentStatus

pub data CheckResult : Type 0 where
  passed failed : CheckResult

pub record CheckRun : Type 0 where
  pub id : ℕ
  pub result : CheckResult
  pub exit_code : ℕ
  pub created_at : Time

pub record Queue : Type 0 where
  pub id : ℕ
  pub slug : Text
  pub name : Text
  pub is_active : Bool

pub record Task : Type 0 where
  pub id : ℕ
  pub queue : ℕ
  pub order : ℕ
  pub requires_manual_review : Bool
  pub is_active : Bool

pub record TaskAttempt : Type 0 where
  pub id : ℕ
  pub user_id : ℕ
  pub task : Task
  pub attempt_number : ℕ
  pub is_current : Bool
  pub status : Status
  pub check_status : CheckStatus
  pub environment_status : EnvironmentStatus
  pub environment_cleanup_requested : Bool
  pub technical_passed_at : Option Time
  pub container_name : Text
  pub terminal_container_name : Text
  pub terminal_url : Text
  pub mentor_decision : MentorDecision
  pub mentor_feedback : Text
  pub mentor_reviewed_at : Option Time
  pub mentor_feedback_seen_at : Option Time
  pub check_runs : List CheckRun

-- The completion of a program; `task_ids` are those of its snapshot.
pub record SandboxProgramCompletion : Type 0 where
  pub id : ℕ
  pub user_id : ℕ
  pub program_key : Text
  pub completed_at : Time
  pub composition_fingerprint : Text
  pub task_ids : List ℕ
