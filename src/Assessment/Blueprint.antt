-- ===== src/Assessment/Blueprint.antt =====
-- assessment/services/blueprint_validation.py, on a question bank that is a list of questions in
-- the order of the selection's query, by `family_id` and `id`.
use ticket_sandbox.Prelude.{
  ℕ, nat_eq, Bool, not, ◌&&◌, List, [], ◌∷◌, map, ok, ◌>>◌, raise_if, length, keep, sum, is_empty,
  leb, nat_beq, if◌then◌else◌,
}
use ticket_sandbox.Prelude.Sets.{set}
use ticket_sandbox.Prelude.Text.{Text}
use ticket_sandbox.Assessment.Constants.{
  SupportLevel, ServiceError, Shortage, Checked, level_beq, is_active_status,
}
use ticket_sandbox.Assessment.Questions.{Question, Skill, Topic}

pub record BlueprintSkillQuota : Type 0 where
  pub skill : Skill
  pub question_count : ℕ

-- `skill_quotas` stand in the order of the queries.
pub record ExamBlueprint : Type 0 where
  pub name : Text
  pub level : SupportLevel
  pub pass_percentage : ℕ
  pub allow_back_navigation : Bool
  pub shuffle_questions : Bool
  pub shuffle_answer_options : Bool
  pub is_active : Bool
  pub skill_quotas : List BlueprintSkillQuota

-- `ExamBlueprint.question_count`
unfoldable pub question_count : ExamBlueprint → ℕ
question_count b = sum (map (λ q. q.question_count) b.skill_quotas)

-- The filter of the pool's query.
unfoldable pub is_eligible : SupportLevel → Skill → Question → Bool
is_eligible level skill q =
    level_beq q.level level
    && is_active_status q.status
    && nat_beq q.family.skill.id skill.id
    && q.family.is_active
    && q.family.skill.is_active
    && q.family.skill.topic.is_active

unfoldable pub pool : List Question → SupportLevel → Skill → List Question
pool bank level skill = keep (is_eligible level skill) bank

abbrev pub family_ids : List Question → List ℕ
family_ids [] = []
family_ids (q ∷ qs) = q.family.id ∷ family_ids qs

pub record PoolStatus : Type 0 where
  pub topic : Topic
  pub skill : Skill
  pub required_count : ℕ
  pub available_family_count : ℕ
  pub is_sufficient : Bool

unfoldable pub quota_status : List Question → SupportLevel → BlueprintSkillQuota → PoolStatus
quota_status bank level quota =
    let available = length (set (family_ids (pool bank level quota.skill))) in
    record {
      topic = quota.skill.topic;
      skill = quota.skill;
      required_count = quota.question_count;
      available_family_count = available;
      is_sufficient = leb quota.question_count available;
    }

unfoldable pub get_blueprint_pool_status : List Question → ExamBlueprint → List PoolStatus
unfolding quota_status
get_blueprint_pool_status bank b = map (quota_status bank b.level) b.skill_quotas

abbrev shortage_of : PoolStatus → Shortage
shortage_of s = record {
  topic = s.topic.name;
  skill = s.skill.name;
  required_count = s.required_count;
  available_family_count = s.available_family_count;
}

-- The loop that collects the shortages.
unfoldable pub find_shortages : List PoolStatus → List Shortage
find_shortages [] = []
find_shortages (s ∷ ss) =
    if s.is_sufficient then find_shortages ss else shortage_of s ∷ find_shortages ss

unfoldable pub validate_blueprint_question_pool :
    List Question → ExamBlueprint → Checked (List PoolStatus)
unfolding get_blueprint_pool_status find_shortages
validate_blueprint_question_pool bank b =
    let status = get_blueprint_pool_status bank b in
    let short = find_shortages status in
    do
      raise_if (is_empty status) ServiceError.no_quotas
      raise_if (not (is_empty short)) (ServiceError.shortages short)
      ok status
