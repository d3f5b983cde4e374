-- ===== src/Assessment/Snapshot.antt =====
-- assessment/services/question_snapshot.py: the frozen copy of a question that an attempt shows and
-- grades by. Entries get the keys "option-1", "option-2" and so on, in the order shown.
pub mod Keys
pub mod Numbering
pub mod Graded
pub mod RoundTrip
use ticket_sandbox.Prelude.{
  ℕ, ◌+◌, Bool, List, [], ◌∷◌, ◌++◌, map, Outcome, ok, raised, ◌>>=◌, ◌>>◌, if◌then◌else◌,
}
use ticket_sandbox.Prelude.Dict.{Dict, put}
use ticket_sandbox.Prelude.Text.{Text, text_eq, codes, decimal}
use ticket_sandbox.Assessment.Constants.{QuestionType, ServiceError, Checked}
use ticket_sandbox.Assessment.Questions.{Question, DiagnosticBlock}
use ticket_sandbox.Assessment.Random.{Random}
use ticket_sandbox.Assessment.Grading.{VisibleItem, VisiblePayload, GradingPayload, Gradable}
use ticket_sandbox.Assessment.Validation.{
  MarkedText, PairText, validate_answer_configuration, validate_matching_configuration,
  validate_ordering_configuration, validate_line_selection_configuration,
}
use Keys.{entry_key}

pub record CommonData : Type 0 where
  pub source_question : ℕ
  pub topic_name : Text
  pub topic_slug : Text
  pub skill_name : Text
  pub skill_slug : Text
  pub family_name : Text
  pub family_slug : Text
  pub question_title : Text
  pub question_slug : Text
  pub question_type : QuestionType
  pub difficulty : Text
  pub scenario : Text
  pub diagnostic_data : Text
  pub diagnostic_blocks : List DiagnosticBlock
  pub prompt : Text
  pub time_limit_seconds : ℕ
  pub explanation : Text

pub record Payloads : Type 0 where
  pub visible : VisiblePayload
  pub grading : GradingPayload

pub record SnapshotData : Type 0 where
  pub common : CommonData
  pub payloads : Payloads

-- What grading reads of a snapshot.
abbrev pub gradable : SnapshotData → Gradable
gradable d = record {
  question_type = d.common.question_type;
  visible = d.payloads.visible;
  grading = d.payloads.grading;
}

unfoldable pub build_common_snapshot_data : Question → CommonData
build_common_snapshot_data q = record {
  source_question = q.id;
  topic_name = q.family.skill.topic.name;
  topic_slug = q.family.skill.topic.slug;
  skill_name = q.family.skill.name;
  skill_slug = q.family.skill.slug;
  family_name = q.family.name;
  family_slug = q.family.slug;
  question_title = q.title;
  question_slug = q.slug;
  question_type = q.answer_type;
  difficulty = q.difficulty;
  scenario = q.scenario;
  diagnostic_data = q.diagnostic_data;
  diagnostic_blocks = q.diagnostic_blocks;
  prompt = q.prompt;
  time_limit_seconds = q.time_limit_seconds;
  explanation = q.explanation;
}

abbrev pub no_visible : VisiblePayload
no_visible = record { options = []; left_items = []; right_items = []; items = []; lines = [] }

abbrev pub no_grading : GradingPayload
no_grading = record { correct_keys = []; matches = []; correct_order = [] }

-- `visible_options` and `correct_keys`, from the given index on; so for lines.
unfoldable pub number_marked : Text → ℕ → List MarkedText → List VisibleItem × List Text
number_marked prefix index [] = ([], [])
number_marked prefix index (o ∷ os) =
    let (visible, correct) = number_marked prefix (index + 1) os in
    let key = entry_key prefix index in
    (record { key = key; text = o.text } ∷ visible, if o.is_correct then key ∷ correct else correct)

-- The visible entries of plain texts.
unfoldable pub number_texts : Text → ℕ → List Text → List VisibleItem
number_texts prefix index [] = []
number_texts prefix index (t ∷ ts) =
    record { key = entry_key prefix index; text = t } ∷ number_texts prefix (index + 1) ts

-- `matches[left_key] = right_key`, pair by pair.
unfoldable pub number_matches : Dict Text Text → ℕ → List PairText → Dict Text Text
number_matches matches index [] = matches
number_matches matches index (p ∷ ps) =
    number_matches
      (put matches (entry_key (codes "left-") index) (entry_key (codes "right-") index)) (index + 1)
      ps

-- `correct_order`, from the given index on.
unfoldable pub number_order : ℕ → List Text → List Text
number_order index [] = []
number_order index (t ∷ ts) = entry_key (codes "item-") index ∷ number_order (index + 1) ts

module _ (casefold : Text → Text) (random : Random) where
  open random use {Rng, seeded, shuffle}

  unfoldable pub build_choice_payload : Question → Rng → Bool → Checked Payloads
  unfolding number_marked
  build_choice_payload question rng shuffled = do
    validate_answer_configuration casefold question.answer_type question.answer_options
    let options =
        if shuffled
        then (shuffle MarkedText rng question.answer_options).0
        else question.answer_options
    let numbered = number_marked (codes "option-") 1 options
    ok (record {
      visible = record no_visible { options = numbered.0 };
      grading = record no_grading { correct_keys = numbered.1 };
    })

  unfoldable pub build_matching_payload : Question → Rng → Checked Payloads
  unfolding number_texts number_matches
  build_matching_payload question rng = do
    validate_matching_configuration casefold question.matching_pairs
    let left_items = number_texts (codes "left-") 1 (map (λ p. p.left_text) question.matching_pairs)
    let right_items =
        number_texts (codes "right-") 1 (map (λ p. p.right_text) question.matching_pairs)
    ok (record {
      visible = record no_visible {
        left_items = left_items;
        right_items = (shuffle VisibleItem rng right_items).0;
      };
      grading = record no_grading { matches = number_matches [] 1 question.matching_pairs };
    })

  unfoldable pub build_ordering_payload : Question → Rng → Checked Payloads
  unfolding number_texts number_order
  build_ordering_payload question rng = do
    validate_ordering_configuration casefold question.ordering_items
    let visible_items = number_texts (codes "item-") 1 question.ordering_items
    ok (record {
      visible = record no_visible { items = (shuffle VisibleItem rng visible_items).0 };
      grading = record no_grading { correct_order = number_order 1 question.ordering_items };
    })

  unfoldable pub build_line_selection_payload : Question → Checked Payloads
  unfolding number_marked
  build_line_selection_payload question = do
    validate_line_selection_configuration casefold question.selectable_lines
    let numbered = number_marked (codes "line-") 1 question.selectable_lines
    ok (record {
      visible = record no_visible { lines = numbered.0 };
      grading = record no_grading { correct_keys = numbered.1 };
    })

  -- `_build_question_random`
  unfoldable pub build_question_random : Text → ℕ → Rng
  build_question_random seed question_id =
      seeded (seed ++ codes ":question:" ++ decimal question_id)

  -- The payloads of the question's type.
  unfoldable pub build_payloads : QuestionType → Question → Rng → Bool → Checked Payloads
  unfolding build_choice_payload build_matching_payload build_ordering_payload
      build_line_selection_payload
  build_payloads QuestionType.single_choice q rng shuffled = build_choice_payload q rng shuffled
  build_payloads QuestionType.multiple_choice q rng shuffled = build_choice_payload q rng shuffled
  build_payloads QuestionType.matching q rng shuffled = build_matching_payload q rng
  build_payloads QuestionType.ordering q rng shuffled = build_ordering_payload q rng
  build_payloads QuestionType.line_selection q rng shuffled = build_line_selection_payload q
  build_payloads QuestionType.other q rng shuffled = raised ServiceError.unknown_question_type

  unfoldable pub build_question_snapshot_data : Question → Text → Bool → Checked SnapshotData
  unfolding build_common_snapshot_data build_question_random build_payloads
  build_question_snapshot_data question seed shuffle_answer_options = do
    payloads ←
        build_payloads question.answer_type question (build_question_random seed question.id)
          shuffle_answer_options
    ok (record { common = build_common_snapshot_data question; payloads = payloads })
