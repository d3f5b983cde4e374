-- ===== src/Assessment/Tests/Samples.antt =====
-- The data of the runs: a question, a blueprint that asks for it, and an assignment.
use ticket_sandbox.Prelude.{true, false, [], ◌∷◌, none, some}
use ticket_sandbox.Prelude.Text.{codes}
use ticket_sandbox.Assessment.Constants.{SupportLevel, QuestionType, QuestionStatus}
use ticket_sandbox.Assessment.Questions.{Topic, Skill, QuestionFamily, Question}
use ticket_sandbox.Assessment.Blueprint.{ExamBlueprint}
use ticket_sandbox.Assessment.Snapshot.{
  SnapshotData, build_common_snapshot_data, no_visible, no_grading,
}
use ticket_sandbox.Assessment.Exam.Attempts.{ExamAssignment}

abbrev linux : Topic
linux = record { name = codes "Linux"; slug = codes "linux"; is_active = true }

abbrev disks : Skill
disks = record {
  id = 4;
  topic = linux;
  name = codes "Disks";
  slug = codes "disks";
  is_active = true;
}

abbrev space : QuestionFamily
space = record {
  id = 9;
  skill = disks;
  name = codes "Space";
  slug = codes "space";
  is_active = true;
}

abbrev pub question : Question
question = record {
  id = 12;
  family = space;
  title = codes "Free space";
  slug = codes "free-space";
  level = SupportLevel.l1;
  difficulty = codes "easy";
  scenario = [];
  diagnostic_data = [];
  prompt = codes "Which command?";
  answer_type = QuestionType.single_choice;
  time_limit_seconds = 60;
  explanation = [];
  status = QuestionStatus.active;
  diagnostic_blocks = [];
  answer_options =
      record { text = codes " df  -h"; is_correct = true }
      ∷ record { text = codes "ls"; is_correct = false }
      ∷ [];
  matching_pairs = [];
  ordering_items = [];
  selectable_lines = [];
}

-- Its snapshot when nothing is shuffled.
abbrev pub snapshot_data : SnapshotData
snapshot_data = record {
  common = build_common_snapshot_data question;
  payloads = record {
    visible = record no_visible {
      options =
          record { key = codes "option-1"; text = codes " df  -h" }
          ∷ record { key = codes "option-2"; text = codes "ls" }
          ∷ [];
    };
    grading = record no_grading { correct_keys = codes "option-1" ∷ [] };
  };
}

abbrev pub blueprint : ExamBlueprint
blueprint = record {
  name = codes "First line";
  level = SupportLevel.l1;
  pass_percentage = 75;
  allow_back_navigation = true;
  shuffle_questions = true;
  shuffle_answer_options = true;
  is_active = true;
  skill_quotas = record { skill = disks; question_count = 1 } ∷ [];
}

abbrev pub assignment : ExamAssignment
assignment = record {
  campaign = record {
    name = codes "Spring";
    blueprint = blueprint;
    is_active = true;
    opens_at = some 5;
    closes_at = none;
  };
  employee = record { level = SupportLevel.l1; is_active = true };
  attempt_limit = 1;
  is_active = true;
  attempts = [];
}
