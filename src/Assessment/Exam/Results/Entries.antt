-- ===== src/Assessment/Exam/Results/Entries.antt =====
-- The entries of `_build_breakdown` in assessment/services/results.py.
use ticket_sandbox.Prelude.{
  ℕ, ◌≡◌, refl, ap, sym, ◌==◌, List, [], ◌∷◌, ◌++◌, some, length, keep, arith, Bool-cases, inl, inr,
}
use ticket_sandbox.Prelude.Dict.{Dict, get, put, get-put}
use ticket_sandbox.Prelude.Text.{Text, text_eq, text_beq_iff}
use ticket_sandbox.Assessment.Grading.Percentage.{average_score}
use ticket_sandbox.Assessment.Exam.Records.{TopicEntry, SkillEntry}
use ticket_sandbox.Assessment.Exam.Results.{
  Answered, TopicScores, SkillScores, topic_scores, skill_scores, collect_topics, collect_skills,
  topic_breakdown, skill_breakdown, build_breakdown, scores_of,
}

-- The answers of one topic and of one skill.
abbrev pub of_topic : Text → List Answered → List Answered
of_topic slug as' = keep (λ a. slug == a.snapshot.topic_slug) as'

abbrev pub of_skill : Text → List Answered → List Answered
of_skill slug as' = keep (λ a. slug == a.snapshot.skill_slug) as'

++_assoc_one : (xs ys : List ℕ) (x : ℕ) → (xs ++ x ∷ []) ++ ys ≡ xs ++ x ∷ ys
++_assoc_one [] ys x = refl
++_assoc_one (y ∷ xs) ys x = ap (λ zs. y ∷ zs) (++_assoc_one xs ys x)

++_nil : (xs : List ℕ) → xs ++ [] ≡ xs
++_nil [] = refl
++_nil (x ∷ xs) = ap (λ ys. x ∷ ys) (++_nil xs)

collect_topics-scores :
    (d : Dict Text TopicScores) (as' : List Answered) (slug : Text)
    → topic_scores (get (collect_topics d as') slug)
      ≡ topic_scores (get d slug) ++ scores_of (of_topic slug as')
unfolding collect_topics
collect_topics-scores d [] slug = sym (++_nil (topic_scores (get d slug)))
collect_topics-scores d (a ∷ as') slug =
    let k = a.snapshot.topic_slug in
    let old = topic_scores (get d k) in
    let entry : TopicScores = record {
      name = a.snapshot.topic_name;
      scores = old ++ a.answer.score_percentage ∷ [];
    } in
    elim (Bool-cases (slug == k)) [
      | inl same ↦
          let e : slug ≡ k = (text_beq_iff slug k).0 same in
          ground (
            arith,
            collect_topics-scores (put d k entry) as' slug,
            get-put d k slug entry,
            ++_assoc_one old (scores_of (of_topic slug as')) a.answer.score_percentage,
            e,
          )
      | inr other ↦
          ground (arith, collect_topics-scores (put d k entry) as' slug, get-put d k slug entry)
    ]

collect_skills-scores :
    (d : Dict Text SkillScores) (as' : List Answered) (slug : Text)
    → skill_scores (get (collect_skills d as') slug)
      ≡ skill_scores (get d slug) ++ scores_of (of_skill slug as')
unfolding collect_skills
collect_skills-scores d [] slug = sym (++_nil (skill_scores (get d slug)))
collect_skills-scores d (a ∷ as') slug =
    let k = a.snapshot.skill_slug in
    let old = skill_scores (get d k) in
    let entry : SkillScores = record {
      name = a.snapshot.skill_name;
      topic_slug = a.snapshot.topic_slug;
      topic_name = a.snapshot.topic_name;
      scores = old ++ a.answer.score_percentage ∷ [];
    } in
    elim (Bool-cases (slug == k)) [
      | inl same ↦
          let e : slug ≡ k = (text_beq_iff slug k).0 same in
          ground (
            arith,
            collect_skills-scores (put d k entry) as' slug,
            get-put d k slug entry,
            ++_assoc_one old (scores_of (of_skill slug as')) a.answer.score_percentage,
            e,
          )
      | inr other ↦
          ground (arith, collect_skills-scores (put d k entry) as' slug, get-put d k slug entry)
    ]

-- An entry is made of the scores collected under its slug.
get-topic_breakdown :
    (d : Dict Text TopicScores) (slug : Text) (e : TopicEntry)
    → get (topic_breakdown d) slug ≡ some e
    → (e.question_count ≡ length (topic_scores (get d slug)))
      × (e.score_percentage ≡ average_score (topic_scores (get d slug)))
unfolding topic_breakdown get
get-topic_breakdown [] slug e h = cc
get-topic_breakdown ((k, t) ∷ d) slug e h = elim (Bool-cases (slug == k)) [
  | inl here ↦ ground arith
  | inr there ↦ ground (arith, get-topic_breakdown d slug e)
]

get-skill_breakdown :
    (d : Dict Text SkillScores) (slug : Text) (e : SkillEntry)
    → get (skill_breakdown d) slug ≡ some e
    → (e.question_count ≡ length (skill_scores (get d slug)))
      × (e.score_percentage ≡ average_score (skill_scores (get d slug)))
unfolding skill_breakdown get
get-skill_breakdown [] slug e h = cc
get-skill_breakdown ((k, t) ∷ d) slug e h = elim (Bool-cases (slug == k)) [
  | inl here ↦ ground arith
  | inr there ↦ ground (arith, get-skill_breakdown d slug e)
]

-- The entry of a topic counts the answers with its slug, and its score is their average.
pub build_breakdown-of_topic :
    (as' : List Answered) (slug : Text) (e : TopicEntry)
    → get (build_breakdown as').0 slug ≡ some e
    → (e.question_count ≡ length (scores_of (of_topic slug as')))
      × (e.score_percentage ≡ average_score (scores_of (of_topic slug as')))
unfolding build_breakdown get
build_breakdown-of_topic as' slug e h =
    let (counted, averaged) = get-topic_breakdown (collect_topics [] as') slug e h in
    let scores = collect_topics-scores [] as' slug in
    (rw counted (ap (λ (qs : List ℕ). length qs) scores), rw averaged (ap average_score scores))

-- The entry of a skill counts the answers with its slug, and its score is their average.
pub build_breakdown-of_skill :
    (as' : List Answered) (slug : Text) (e : SkillEntry)
    → get (build_breakdown as').1 slug ≡ some e
    → (e.question_count ≡ length (scores_of (of_skill slug as')))
      × (e.score_percentage ≡ average_score (scores_of (of_skill slug as')))
unfolding build_breakdown get
build_breakdown-of_skill as' slug e h =
    let (counted, averaged) = get-skill_breakdown (collect_skills [] as') slug e h in
    let scores = collect_skills-scores [] as' slug in
    (rw counted (ap (λ (qs : List ℕ). length qs) scores), rw averaged (ap average_score scores))
