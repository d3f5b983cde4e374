-- ===== src/Assessment/Exam/Records.antt =====
-- The tables of assessment/models.py that an attempt writes. A time is a number of microseconds. The
-- row of a one-to-one table stands in the row that it belongs to: an answer in its snapshot, a
-- result in its attempt. Snapshots are listed by `position`.
use ticket_sandbox.Prelude.{ℕ, ◌*◌, Bool, List, Option, false, true}
use ticket_sandbox.Prelude.Dict.{Dict}
use ticket_sandbox.Prelude.Text.{Text}
use ticket_sandbox.Assessment.Constants.{SupportLevel, ExamAttemptStatus}
use ticket_sandbox.Assessment.Grading.{Response, Gradable}
use ticket_sandbox.Assessment.Snapshot.{SnapshotData, gradable}

abbrev pub Time : Type 0
Time = ℕ

pub record ExamAnswer : Type 0 where
  pub response_payload : Response
  pub score_percentage : ℕ
  pub is_correct : Bool
  pub timed_out : Bool
  pub response_time_seconds : ℕ

pub record ExamQuestionSnapshot : Type 0 where
  pub position : ℕ
  pub fields : SnapshotData
  pub started_at : Option Time
  pub answer : Option ExamAnswer

-- An entry of a breakdown: the name, for a skill its topic, the number of questions, the average.
pub record TopicEntry : Type 0 where
  pub name : Text
  pub question_count : ℕ
  pub score_percentage : ℕ

pub record SkillEntry : Type 0 where
  pub name : Text
  pub topic_slug : Text
  pub topic_name : Text
  pub question_count : ℕ
  pub score_percentage : ℕ

pub record AssessmentResult : Type 0 where
  pub score_percentage : ℕ
  pub passed : Bool
  pub total_questions : ℕ
  pub fully_correct_questions : ℕ
  pub topic_breakdown : Dict Text TopicEntry
  pub skill_breakdown : Dict Text SkillEntry

pub record ExamAttempt : Type 0 where
  pub attempt_number : ℕ
  pub status : ExamAttemptStatus
  pub selection_seed : Text
  pub campaign_name : Text
  pub blueprint_name : Text
  pub level : SupportLevel
  pub pass_percentage : ℕ
  pub allow_back_navigation : Bool
  pub shuffle_questions : Bool
  pub shuffle_answer_options : Bool
  pub completed_at : Option Time
  pub question_snapshots : List ExamQuestionSnapshot
  pub result : Option AssessmentResult

unfoldable pub is_in_progress : ExamAttemptStatus → Bool
is_in_progress ExamAttemptStatus.in_progress = true
is_in_progress _ = false

-- `timedelta(seconds=n)`
abbrev pub seconds : ℕ → Time
seconds n = n * 1000000

abbrev pub time_limit : ExamQuestionSnapshot → ℕ
time_limit s = s.fields.common.time_limit_seconds

abbrev pub snapshot_gradable : ExamQuestionSnapshot → Gradable
snapshot_gradable s = gradable s.fields
