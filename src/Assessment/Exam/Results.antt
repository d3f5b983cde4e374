-- ===== src/Assessment/Exam/Results.antt =====
-- assessment/services/results.py. Breakdowns are dicts by slug, in the order of first occurrence.
pub mod Breakdown
pub mod Completed
pub mod Entries
use ticket_sandbox.Prelude.{
  ℕ, ◌*◌, Bool, true, false, not, List, [], ◌∷◌, ◌++◌, map, Option, none, some, ok, raised, ◌>>=◌,
  ◌>>◌, raise_if, length, count, leb, nat_beq, if◌then◌else◌,
}
use ticket_sandbox.Prelude.Dict.{Dict, get, put}
use ticket_sandbox.Prelude.Text.{Text, text_eq}
use ticket_sandbox.Assessment.Constants.{ExamAttemptStatus, ServiceError, Checked}
use ticket_sandbox.Assessment.Snapshot.{CommonData}
use ticket_sandbox.Assessment.Grading.Percentage.{average_score}
use ticket_sandbox.Assessment.Exam.Records.{
  Time, ExamAnswer, ExamQuestionSnapshot, ExamAttempt, AssessmentResult, TopicEntry, SkillEntry,
}

-- An answer with the columns of its snapshot.
pub record Answered : Type 0 where
  pub snapshot : CommonData
  pub answer : ExamAnswer

-- The answers of an attempt, by position.
unfoldable pub answers_of : List ExamQuestionSnapshot → List Answered
answers_of [] = []
answers_of (s ∷ ss) = elim s.answer [
  | none ↦ answers_of ss
  | some a ↦ record { snapshot = s.fields.common; answer = a } ∷ answers_of ss
]

pub record TopicScores : Type 0 where
  pub name : Text
  pub scores : List ℕ

pub record SkillScores : Type 0 where
  pub name : Text
  pub topic_slug : Text
  pub topic_name : Text
  pub scores : List ℕ

-- `topics[slug]` of the `defaultdict`, its scores.
abbrev pub topic_scores : Option TopicScores → List ℕ
topic_scores none = []
topic_scores (some t) = t.scores

abbrev pub skill_scores : Option SkillScores → List ℕ
skill_scores none = []
skill_scores (some t) = t.scores

-- The loop of `_build_breakdown` over the answers, on the two dicts.
unfoldable pub collect_topics : Dict Text TopicScores → List Answered → Dict Text TopicScores
collect_topics topics [] = topics
collect_topics topics (a ∷ as') =
    collect_topics
      (put topics a.snapshot.topic_slug (record {
        name = a.snapshot.topic_name;
        scores = topic_scores (get topics a.snapshot.topic_slug) ++ a.answer.score_percentage ∷ [];
      }))
      as'

unfoldable pub collect_skills : Dict Text SkillScores → List Answered → Dict Text SkillScores
collect_skills skills [] = skills
collect_skills skills (a ∷ as') =
    collect_skills
      (put skills a.snapshot.skill_slug (record {
        name = a.snapshot.skill_name;
        topic_slug = a.snapshot.topic_slug;
        topic_name = a.snapshot.topic_name;
        scores = skill_scores (get skills a.snapshot.skill_slug) ++ a.answer.score_percentage ∷ [];
      }))
      as'

-- The loops over `topics.items()` and `skills.items()`.
unfoldable pub topic_breakdown : Dict Text TopicScores → Dict Text TopicEntry
topic_breakdown [] = []
topic_breakdown ((slug, t) ∷ ts) =
    (
      slug,
      record {
        name = t.name;
        question_count = length t.scores;
        score_percentage = average_score t.scores;
      },
    )
    ∷ topic_breakdown ts

unfoldable pub skill_breakdown : Dict Text SkillScores → Dict Text SkillEntry
skill_breakdown [] = []
skill_breakdown ((slug, t) ∷ ts) =
    (
      slug,
      record {
        name = t.name;
        topic_slug = t.topic_slug;
        topic_name = t.topic_name;
        question_count = length t.scores;
        score_percentage = average_score t.scores;
      },
    )
    ∷ skill_breakdown ts

-- `_build_breakdown`
unfoldable pub build_breakdown : List Answered → Dict Text TopicEntry × Dict Text SkillEntry
unfolding collect_topics collect_skills topic_breakdown skill_breakdown
build_breakdown as' =
    (topic_breakdown (collect_topics [] as'), skill_breakdown (collect_skills [] as'))

abbrev pub scores_of : List Answered → List ℕ
scores_of as' = map (λ a. a.answer.score_percentage) as'

-- The row that completing creates.
unfoldable pub build_result : ℕ → ℕ → List Answered → AssessmentResult
unfolding build_breakdown
build_result pass_percentage snapshots_count as' =
    let score = average_score (scores_of as') in
    let breakdown = build_breakdown as' in
    record {
      score_percentage = score;
      passed = leb (pass_percentage * 100) score;
      total_questions = snapshots_count;
      fully_correct_questions = count (λ a. a.answer.is_correct) as';
      topic_breakdown = breakdown.0;
      skill_breakdown = breakdown.1;
    }

abbrev has_result : ExamAttempt → Bool
has_result attempt = elim attempt.result [ none ↦ false | some r ↦ true ]

-- The branch on an attempt that is not yet completed. The result's column of its attempt is unique,
-- so `create` raises if there is a result already.
unfoldable pub finish_attempt : ExamAttempt → Time → Checked (AssessmentResult × Bool × ExamAttempt)
finish_attempt attempt now =
    let total = length attempt.question_snapshots in
    let as' = answers_of attempt.question_snapshots in
    do
      raise_if (nat_beq total 0) ServiceError.no_questions
      raise_if (not (nat_beq (length as') total))
          (ServiceError.unanswered_questions (length as') total)
      raise_if (has_result attempt) ServiceError.integrity_error
      let result = build_result attempt.pass_percentage total as'
      ok (
        result,
        true,
        record attempt {
          status = ExamAttemptStatus.completed;
          completed_at = some now;
          result = some result;
        },
      )

-- The result of an attempt that is completed already.
unfoldable pub existing_result : ExamAttempt → Checked (AssessmentResult × Bool × ExamAttempt)
existing_result attempt = elim attempt.result [
  | none ↦ raised ServiceError.result_missing
  | some r ↦ ok (r, false, attempt)
]

-- `complete_exam_attempt`
unfoldable pub complete_exam_attempt :
    ExamAttempt → Time → Checked (AssessmentResult × Bool × ExamAttempt)
unfolding finish_attempt existing_result
complete_exam_attempt attempt now = elim attempt.status [
  | ExamAttemptStatus.invalidated ↦ raised ServiceError.attempt_invalidated
  | ExamAttemptStatus.completed ↦ existing_result attempt
  | ExamAttemptStatus.in_progress ↦ finish_attempt attempt now
]
