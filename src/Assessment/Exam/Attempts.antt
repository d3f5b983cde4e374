-- ===== src/Assessment/Exam/Attempts.antt =====
-- assessment/services/attempts.py. An assignment is read with its campaign, blueprint and employee,
-- and with its attempts. `secrets.token_hex` is the parameter `token`; the seed of the call is an
-- option, as `seed=None`.
pub mod Started
use ticket_sandbox.Prelude.{
  ℕ, suc, ◌+◌, Bool, true, false, not, List, [], ◌∷◌, ◌++◌, Option, none, some, ok, raised, ◌>>=◌,
  ◌>>◌, raise_if, length, keep, leb, ltb, if◌then◌else◌, max,
}
use ticket_sandbox.Prelude.Text.{Text}
use ticket_sandbox.Assessment.Constants.{
  ExamAttemptStatus, SupportLevel, ServiceError, Checked, level_beq,
}
use ticket_sandbox.Assessment.Questions.{Question}
use ticket_sandbox.Assessment.Random.{Random}
use ticket_sandbox.Assessment.Blueprint.{ExamBlueprint}
use ticket_sandbox.Assessment.Selection.{select_questions_for_blueprint}
use ticket_sandbox.Assessment.Snapshot.{SnapshotData, build_question_snapshot_data}
use ticket_sandbox.Assessment.Exam.Records.{Time, ExamQuestionSnapshot, ExamAttempt, is_in_progress}

pub record AssessmentCampaign : Type 0 where
  pub name : Text
  pub blueprint : ExamBlueprint
  pub is_active : Bool
  pub opens_at : Option Time
  pub closes_at : Option Time

pub record SupportProfile : Type 0 where
  pub level : SupportLevel
  pub is_active : Bool

pub record ExamAssignment : Type 0 where
  pub campaign : AssessmentCampaign
  pub employee : SupportProfile
  pub attempt_limit : ℕ
  pub is_active : Bool
  pub attempts : List ExamAttempt

-- `campaign.opens_at and now < campaign.opens_at`
abbrev pub too_early : Option Time → Time → Bool
too_early none now = false
too_early (some t) now = ltb now t

-- `campaign.closes_at and now >= campaign.closes_at`
abbrev pub too_late : Option Time → Time → Bool
too_late none now = false
too_late (some t) now = leb t now

-- `_validate_assignment_for_start`
unfoldable pub validate_assignment_for_start : ExamAssignment → Time → Checked (Unit {0})
validate_assignment_for_start asg now = do
  raise_if (not asg.is_active) ServiceError.assignment_inactive
  raise_if (not asg.employee.is_active) ServiceError.employee_inactive
  raise_if (not (level_beq asg.employee.level asg.campaign.blueprint.level))
      ServiceError.level_mismatch
  raise_if (not asg.campaign.is_active) ServiceError.campaign_inactive
  raise_if (not asg.campaign.blueprint.is_active) ServiceError.blueprint_inactive
  raise_if (too_early asg.campaign.opens_at now) ServiceError.not_opened_yet
  raise_if (too_late asg.campaign.closes_at now) ServiceError.campaign_closed

abbrev pub active_attempts : List ExamAttempt → List ExamAttempt
active_attempts as' = keep (λ a. is_in_progress a.status) as'

-- `order_by("-attempt_number").first()`
unfoldable pub highest : List ExamAttempt → Option ExamAttempt
highest [] = none
highest (a ∷ as') = elim (highest as') [
  | none ↦ some a
  | some b ↦ some (if leb b.attempt_number a.attempt_number then a else b)
]

-- `aggregate(Max("attempt_number"))["value"] or 0`
unfoldable pub last_attempt_number : List ExamAttempt → ℕ
last_attempt_number [] = 0
last_attempt_number (a ∷ as') = max a.attempt_number (last_attempt_number as')

-- The columns that a new attempt copies.
unfoldable pub new_attempt : ExamAssignment → Text → List ExamQuestionSnapshot → ExamAttempt
unfolding last_attempt_number
new_attempt asg seed snapshots =
    let b = asg.campaign.blueprint in
    record {
      attempt_number = last_attempt_number asg.attempts + 1;
      status = ExamAttemptStatus.in_progress;
      selection_seed = seed;
      campaign_name = asg.campaign.name;
      blueprint_name = b.name;
      level = b.level;
      pass_percentage = b.pass_percentage;
      allow_back_navigation = b.allow_back_navigation;
      shuffle_questions = b.shuffle_questions;
      shuffle_answer_options = b.shuffle_answer_options;
      completed_at = none;
      question_snapshots = snapshots;
      result = none;
    }

-- `seed if seed is not None else secrets.token_hex(16)`
abbrev pub seed_or : Option Text → Text → Text
seed_or none token = token
seed_or (some s) token = s

module _ (casefold : Text → Text) (random : Random) (token : Text) where
  -- The loop that creates the snapshots.
  unfoldable pub create_snapshots :
      Bool → Text → ℕ → List Question → Checked (List ExamQuestionSnapshot)
  create_snapshots shuffle seed position [] = ok []
  create_snapshots shuffle seed position (q ∷ qs) =
      build_question_snapshot_data casefold random q seed shuffle >>= λ fields.
      create_snapshots shuffle seed (position + 1) qs >>= λ rest.
      ok (record { position = position; fields = fields; started_at = none; answer = none } ∷ rest)

  -- The call once no attempt is in progress.
  unfoldable pub create_attempt :
      List Question
      → ExamAssignment
      → Option Text
      → Time
      → Checked (ExamAttempt × Bool × ExamAssignment)
  unfolding validate_assignment_for_start
  create_attempt bank asg seed now = do
    validate_assignment_for_start asg now
    raise_if (leb asg.attempt_limit (length asg.attempts)) ServiceError.attempts_used_up
    let selection_seed = seed_or seed token
    questions ← select_questions_for_blueprint random bank asg.campaign.blueprint selection_seed
    snapshots ←
        create_snapshots asg.campaign.blueprint.shuffle_answer_options selection_seed 1 questions
    let attempt = new_attempt asg selection_seed snapshots
    ok (attempt, true, record asg { attempts = asg.attempts ++ attempt ∷ [] })

  -- `start_exam_attempt`
  unfoldable pub start_exam_attempt :
      List Question
      → ExamAssignment
      → Option Text
      → Time
      → Checked (ExamAttempt × Bool × ExamAssignment)
  unfolding create_attempt highest
  start_exam_attempt bank asg seed now = elim (highest (active_attempts asg.attempts)) [
    | some existing ↦ ok (existing, false, asg)
    | none ↦ create_attempt bank asg seed now
  ]
