-- ===== src/Assessment/Tests/Results.antt =====
-- The end of the run: the answered attempt is completed, and its result.
use ticket_sandbox.Prelude.{
  nat_eq, ◌≡◌, ◌↔◌, ◌<◌, refl, true, false, [], ◌∷◌, none, some, ok, raised, length, All, arith,
}
use ticket_sandbox.Prelude.Text.{text_eq, text_beq, codes}
use ticket_sandbox.Prelude.Dict.{get, put}
use ticket_sandbox.Assessment.Constants.{ServiceError}
use ticket_sandbox.Assessment.Grading.Percentage.{hundred, average_score, round_half_up}
use ticket_sandbox.Assessment.Snapshot.{build_common_snapshot_data}
use ticket_sandbox.Assessment.Exam.Records.{TopicEntry, SkillEntry, ExamAttempt, AssessmentResult}
use ticket_sandbox.Assessment.Exam.Answers.{with_answer}
use ticket_sandbox.Assessment.Exam.Flow.{opened, get_current_question}
use ticket_sandbox.Assessment.Exam.Results.{
  collect_topics, collect_skills, topic_breakdown, skill_breakdown, scores_of, answers_of,
  build_breakdown, build_result, complete_exam_attempt, finish_attempt,
}
use ticket_sandbox.Assessment.Exam.Results.Entries.{
  of_topic, of_skill, build_breakdown-of_topic, build_breakdown-of_skill,
}
use ticket_sandbox.Assessment.Exam.Results.Completed.{
  HasSoundAnswer, IsResultOf, completed_by, complete-result, complete_twice,
}
use ticket_sandbox.Assessment.Exam.Life.Ended.{complete-current_iff}
use ticket_sandbox.Assessment.Exam.Attempts.{new_attempt}
use ticket_sandbox.Assessment.Tests.Samples.{assignment}
use ticket_sandbox.Assessment.Tests.Exam.{fresh, answer}

-- The attempt on one question, answered.
abbrev answered : ExamAttempt
answered = new_attempt assignment (codes "s") (with_answer answer (opened 0 (fresh 1)) ∷ [])

abbrev result : AssessmentResult
result = build_result 75 1 (answers_of answered.question_snapshots)

complete :
    complete_exam_attempt answered 30000000
    ≡ ok (result, true, completed_by answered 30000000 result)
unfolding complete_exam_attempt finish_attempt answers_of new_attempt
complete = refl

answered_sound : All HasSoundAnswer answered.question_snapshots
unfolding new_attempt build_common_snapshot_data
answered_sound = (
  λ b e.
      let same : answer ≡ b = ground arith in
      rw (← same)
        (record { bounded = omega arith; marked = refl; late = λ f. cc; in_time = omega arith }),
  tt,
)

complete-result_example :
    IsResultOf answered result
    × (completed_by answered 30000000 result ≡ completed_by answered 30000000 result)
complete-result_example =
    complete-result answered 30000000 result (completed_by answered 30000000 result) answered_sound
      complete

complete_twice_example :
    complete_exam_attempt (completed_by answered 30000000 result) 40000000
    ≡ ok (result, false, completed_by answered 30000000 result)
complete_twice_example =
    complete_twice answered 30000000 40000000 result true (completed_by answered 30000000 result)
      complete

complete-current_iff_example :
    ((r : AssessmentResult) × (after : ExamAttempt) × (complete_exam_attempt answered 30000000
        ≡ ok (r, true, after)))
    ↔ ((answered.result ≡ none)
        × (0 < length answered.question_snapshots)
        × (get_current_question answered ≡ none))
unfolding new_attempt
complete-current_iff_example = complete-current_iff answered 30000000 refl

-- An attempt that was set back to in progress keeps its result, and cannot be completed again.
set_back :
    complete_exam_attempt (record answered { result = some result }) 30000000
    ≡ raised ServiceError.integrity_error
unfolding complete_exam_attempt finish_attempt answers_of new_attempt
set_back = refl

abbrev linux_entry : TopicEntry
linux_entry = record { name = codes "Linux"; question_count = 1; score_percentage = hundred }

linux_found :
    get (build_breakdown (answers_of answered.question_snapshots)).0 (codes "linux")
    ≡ some linux_entry
unfolding build_breakdown collect_topics topic_breakdown answers_of new_attempt
    build_common_snapshot_data get put average_score round_half_up text_beq
linux_found = refl

build_breakdown-of_topic_example :
    let scores = scores_of (of_topic (codes "linux") (answers_of answered.question_snapshots)) in
    (1 ≡ length scores) × (hundred ≡ average_score scores)
build_breakdown-of_topic_example =
    build_breakdown-of_topic (answers_of answered.question_snapshots) (codes "linux") linux_entry
      linux_found

abbrev disks_entry : SkillEntry
disks_entry = record {
  name = codes "Disks";
  topic_slug = codes "linux";
  topic_name = codes "Linux";
  question_count = 1;
  score_percentage = hundred;
}

disks_found :
    get (build_breakdown (answers_of answered.question_snapshots)).1 (codes "disks")
    ≡ some disks_entry
unfolding build_breakdown collect_skills skill_breakdown answers_of new_attempt
    build_common_snapshot_data get put average_score round_half_up text_beq
disks_found = refl

build_breakdown-of_skill_example :
    let scores = scores_of (of_skill (codes "disks") (answers_of answered.question_snapshots)) in
    (1 ≡ length scores) × (hundred ≡ average_score scores)
build_breakdown-of_skill_example =
    build_breakdown-of_skill (answers_of answered.question_snapshots) (codes "disks") disks_entry
      disks_found
