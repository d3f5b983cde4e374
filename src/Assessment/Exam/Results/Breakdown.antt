-- ===== src/Assessment/Exam/Results/Breakdown.antt =====
-- The question counts of `_build_breakdown` in assessment/services/results.py.
use ticket_sandbox.Prelude.{
  ℕ, ◌+◌, ◌≡◌, refl, List, [], ◌∷◌, ◌++◌, Option, none, some, length, length-append, arith,
}
use ticket_sandbox.Prelude.Dict.{Dict, get, put}
use ticket_sandbox.Prelude.Text.{Text, text_eq}
use ticket_sandbox.Assessment.Exam.Records.{TopicEntry, SkillEntry}
use ticket_sandbox.Assessment.Exam.Results.{
  Answered, TopicScores, SkillScores, topic_scores, skill_scores, collect_topics, collect_skills,
  topic_breakdown, skill_breakdown, build_breakdown,
}

-- The values of a dict, counted by a measure.
weight {ℓ} : {V : Type ℓ} → (V → ℕ) → Dict Text V → ℕ
weight m [] = 0
weight m ((k, v) ∷ d) = m v + weight m d

abbrev measured {ℓ} : {V : Type ℓ} → (V → ℕ) → Option V → ℕ
measured m none = 0
measured m (some v) = m v

-- Writing a key replaces its old weight.
weight-put {ℓ} :
    {V : Type ℓ} (m : V → ℕ) (d : Dict Text V) (k : Text) (v : V)
    → weight m (put d k v) + measured m (get d k) ≡ weight m d + m v
unfolding weight put get
weight-put m [] k v = omega arith
weight-put m ((j, w) ∷ d) k v = ground (arith, weight-put m d k v)

topic_weight :
    (o : Option TopicScores) → length (topic_scores o) ≡ measured (λ t. length t.scores) o
topic_weight none = refl
topic_weight (some t) = refl

skill_weight :
    (o : Option SkillScores) → length (skill_scores o) ≡ measured (λ t. length t.scores) o
skill_weight none = refl
skill_weight (some t) = refl

collect_topics-weight :
    (d : Dict Text TopicScores) (as' : List Answered)
    → weight (λ t. length t.scores) (collect_topics d as')
      ≡ weight (λ t. length t.scores) d + length as'
unfolding collect_topics
collect_topics-weight d [] = omega arith
collect_topics-weight d (a ∷ as') =
    let slug = a.snapshot.topic_slug in
    let old = topic_scores (get d slug) in
    let t : TopicScores = record {
      name = a.snapshot.topic_name;
      scores = old ++ a.answer.score_percentage ∷ [];
    } in
    omega (
      arith,
      collect_topics-weight (put d slug t) as',
      weight-put (λ (t : TopicScores). length t.scores) d slug t,
      length-append old (a.answer.score_percentage ∷ []),
      topic_weight (get d slug),
    )

collect_skills-weight :
    (d : Dict Text SkillScores) (as' : List Answered)
    → weight (λ t. length t.scores) (collect_skills d as')
      ≡ weight (λ t. length t.scores) d + length as'
unfolding collect_skills
collect_skills-weight d [] = omega arith
collect_skills-weight d (a ∷ as') =
    let slug = a.snapshot.skill_slug in
    let old = skill_scores (get d slug) in
    let t : SkillScores = record {
      name = a.snapshot.skill_name;
      topic_slug = a.snapshot.topic_slug;
      topic_name = a.snapshot.topic_name;
      scores = old ++ a.answer.score_percentage ∷ [];
    } in
    omega (
      arith,
      collect_skills-weight (put d slug t) as',
      weight-put (λ (t : SkillScores). length t.scores) d slug t,
      length-append old (a.answer.score_percentage ∷ []),
      skill_weight (get d slug),
    )

abbrev pub topic_total : Dict Text TopicEntry → ℕ
topic_total [] = 0
topic_total ((k, e) ∷ d) = e.question_count + topic_total d

abbrev pub skill_total : Dict Text SkillEntry → ℕ
skill_total [] = 0
skill_total ((k, e) ∷ d) = e.question_count + skill_total d

topic_total-weight :
    (d : Dict Text TopicScores) → topic_total (topic_breakdown d) ≡ weight (λ t. length t.scores) d
unfolding topic_breakdown weight
topic_total-weight [] = refl
topic_total-weight ((k, t) ∷ d) = omega (arith, topic_total-weight d)

skill_total-weight :
    (d : Dict Text SkillScores) → skill_total (skill_breakdown d) ≡ weight (λ t. length t.scores) d
unfolding skill_breakdown weight
skill_total-weight [] = refl
skill_total-weight ((k, t) ∷ d) = omega (arith, skill_total-weight d)

-- Each answer is counted under one topic and under one skill.
pub build_breakdown-totals :
    (as' : List Answered)
    → (topic_total (build_breakdown as').0 ≡ length as')
      × (skill_total (build_breakdown as').1 ≡ length as')
unfolding build_breakdown weight
build_breakdown-totals as' = (
  omega (arith, topic_total-weight (collect_topics [] as'), collect_topics-weight [] as'),
  omega (arith, skill_total-weight (collect_skills [] as'), collect_skills-weight [] as'),
)
