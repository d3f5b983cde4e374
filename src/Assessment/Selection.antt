-- ===== src/Assessment/Selection.antt =====
-- assessment/services/question_selection.py: the questions of one attempt, drawn by a seeded
-- generator: for each quota so many families, and one question of each.
pub mod Families
pub mod Drawn
use ticket_sandbox.Prelude.{
  ℕ, nat_eq, Bool, not, List, [], ◌∷◌, ◌++◌, some, none, Option, Outcome, ok, raised, ◌>>=◌, ◌>>◌,
  raise_if, length, leb, ltb, if◌then◌else◌,
}
use ticket_sandbox.Prelude.Dict.{Dict, get, put, keys}
use ticket_sandbox.Prelude.Text.{Text}
use ticket_sandbox.Assessment.Constants.{SupportLevel, ServiceError, Checked}
use ticket_sandbox.Assessment.Questions.{Question}
use ticket_sandbox.Assessment.Random.{Random}
use ticket_sandbox.Assessment.Blueprint.{
  ExamBlueprint, BlueprintSkillQuota, pool, validate_blueprint_question_pool,
}

-- A `defaultdict(list)` read at a key.
abbrev pub listed : Option (List Question) → List Question
listed none = []
listed (some qs) = qs

-- `questions_by_family[question.family_id].append(question)`, question by question.
unfoldable pub group_by_family : Dict ℕ (List Question) → List Question → Dict ℕ (List Question)
group_by_family d [] = d
group_by_family d (q ∷ qs) =
    group_by_family (put d q.family.id (listed (get d q.family.id) ++ q ∷ [])) qs

-- `sorted` on numbers.
unfoldable pub insert_sorted : ℕ → List ℕ → List ℕ
insert_sorted a [] = a ∷ []
insert_sorted a (x ∷ xs) = if leb a x then a ∷ x ∷ xs else x ∷ insert_sorted a xs

unfoldable pub sorted : List ℕ → List ℕ
unfolding insert_sorted
sorted [] = []
sorted (x ∷ xs) = insert_sorted x (sorted xs)

module _ (random : Random) where
  open random use {Rng, seeded, shuffle, sample, choice}

  -- `rng.sample(population, k)`
  unfoldable pub draw_sample : Rng → List ℕ → ℕ → Checked (List ℕ × Rng)
  draw_sample rng ids k = do
    raise_if (ltb (length ids) k) ServiceError.sample_too_large
    ok (sample rng ids k)

  -- `rng.choice(family_questions)`
  unfoldable pub draw_choice : Rng → List Question → Checked (Question × Rng)
  draw_choice rng [] = raised ServiceError.empty_choice
  draw_choice rng (q ∷ qs) = ok (choice Question rng q qs)

  -- The inner loop, over the selected families.
  unfoldable pub choose_questions :
      Dict ℕ (List Question) → Rng → List ℕ → Checked (List Question × Rng)
  unfolding draw_choice
  choose_questions by_family rng [] = ok ([], rng)
  choose_questions by_family rng (family_id ∷ rest) =
      draw_choice rng (listed (get by_family family_id)) >>= λ drawn.
      choose_questions by_family drawn.1 rest >>= λ others. ok (drawn.0 ∷ others.0, others.1)

  unfoldable pub select_for_quota :
      List Question → SupportLevel → Rng → BlueprintSkillQuota → Checked (List Question × Rng)
  unfolding draw_sample choose_questions group_by_family sorted
  select_for_quota bank level rng quota =
      let by_family = group_by_family [] (pool bank level quota.skill) in
      do
        drawn ← draw_sample rng (sorted (keys by_family)) quota.question_count
        choose_questions by_family drawn.1 drawn.0

  -- The outer loop, over the quotas.
  unfoldable pub select_for_quotas :
      List Question → SupportLevel → Rng → List BlueprintSkillQuota → Checked (List Question × Rng)
  unfolding select_for_quota
  select_for_quotas bank level rng [] = ok ([], rng)
  select_for_quotas bank level rng (quota ∷ rest) =
      select_for_quota bank level rng quota >>= λ chosen.
      select_for_quotas bank level chosen.1 rest >>= λ others. ok (chosen.0 ++ others.0, others.1)

  unfoldable pub select_questions_for_blueprint :
      List Question → ExamBlueprint → Text → Checked (List Question)
  unfolding select_for_quotas
  select_questions_for_blueprint bank b seed = do
    pool_status ← validate_blueprint_question_pool bank b
    chosen ← select_for_quotas bank b.level (seeded seed) b.skill_quotas
    ok (if b.shuffle_questions then (shuffle Question chosen.1 chosen.0).0 else chosen.0)
