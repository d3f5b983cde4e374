-- ===== src/Achievements/Tests/Life.antt =====
-- A tier that is earned, raised, disputed and taken back, with its notifications.
use ticket_sandbox.Prelude.{
  ◌≤◌, ◌≡◌, refl, Bool, true, false, none, some, ok, raised, nat_eq, arith, All,
}
use ticket_sandbox.Prelude.Sets.{contains}
use ticket_sandbox.Prelude.Text.{text_eq, text_beq, strip}
use ticket_sandbox.Achievements.Catalog.{validate_definition, validate_tier, find_schema}
use ticket_sandbox.Prelude.Json.{Json, json_eq}
use ticket_sandbox.Achievements.Errors.{AchievementError, Checked}
use ticket_sandbox.Achievements.Records.{GrantOutcome, Store, find_award, last_proof, is_manual}
use ticket_sandbox.Achievements.Grants.{Receipt}
use ticket_sandbox.Achievements.Grants.Grant.{grant}
use ticket_sandbox.Achievements.Grants.Revoke.{revoke}
use ticket_sandbox.Achievements.Grants.Dispute.{names_metric, flag_disputed}
use ticket_sandbox.Achievements.Grants.Log.{IsLogged}
use ticket_sandbox.Achievements.Grants.Again.{grant-idempotent, IsRepetition}
use ticket_sandbox.Achievements.Grants.Effect.{grant-raises, revoke-blocks, rank_in}
use ticket_sandbox.Achievements.Life.{granted, withdrawn, corrected, Steps, no_call, next}
use ticket_sandbox.Achievements.Life.Reached.{Steps-IsLogged}
use ticket_sandbox.Achievements.Life.Delivered.{IsUnique}
use ticket_sandbox.Achievements.Life.Unique.{Steps-IsUnique}
use ticket_sandbox.Achievements.Tests.Samples.{
  spell, empty_store, earned, praised, earned_again, mistaken, withdrawn_source, after, answer,
}

abbrev pub is_ok {ℓ} : {A : Type ℓ} → Checked A → Bool
is_ok (ok a) = true
is_ok (raised e) = false

-- A call that returns leaves the tables `after` it.
ran {ℓ} : {A : Type ℓ} (c : Checked (A × Store)) → is_ok c ≡ true → (a : A) × (c ≡ ok (a, after c))
ran (ok (a, s)) h = (a, refl)
ran (raised e) h = cc

abbrev pub changed : Checked Store → Store
changed (ok s) = s
changed (raised e) = empty_store

ran_alone : (c : Checked Store) → is_ok c ≡ true → c ≡ ok (changed c)
ran_alone (ok s) h = refl
ran_alone (raised e) h = cc

abbrev pub with_bronze : Store
with_bronze = after (grant spell empty_store earned 10)

abbrev pub doubted : Store
doubted = changed (flag_disputed spell with_bronze withdrawn_source 15)

abbrev pub with_silver : Store
with_silver = after (grant spell doubted praised 20)

abbrev pub taken_back : Store
taken_back = after (revoke spell with_silver mistaken 40)

earns : is_ok (grant spell empty_store earned 10) ≡ true
unfolding grant text_beq json_eq contains spell strip validate_definition find_schema validate_tier
    last_proof
earns = refl

doubts : is_ok (flag_disputed spell with_bronze withdrawn_source 15) ≡ true
unfolding grant revoke flag_disputed text_beq json_eq contains spell strip validate_definition
    find_schema validate_tier last_proof
doubts = refl

-- Evidence without `get`.
unreadable : names_metric (some 3) (Json.number 1) ≡ raised AchievementError.attribute_error
unreadable = refl

rises : is_ok (grant spell doubted praised 20) ≡ true
unfolding grant revoke flag_disputed text_beq json_eq contains spell strip validate_definition
    find_schema validate_tier last_proof
rises = refl

falls : is_ok (revoke spell with_silver mistaken 40) ≡ true
unfolding grant revoke flag_disputed text_beq json_eq contains spell strip validate_definition
    find_schema validate_tier last_proof
falls = refl

-- The four calls, and the answers of two.
falls_answer : answer (revoke spell with_silver mistaken 40) ≡ some GrantOutcome.revoked
unfolding grant revoke flag_disputed text_beq json_eq contains spell strip validate_definition
    find_schema validate_tier last_proof
falls_answer = refl

pub first_run : (r : Receipt) × (grant spell empty_store earned 10 ≡ ok (r, with_bronze))
first_run = ran (grant spell empty_store earned 10) earns

second_run : (r : Receipt) × (grant spell doubted praised 20 ≡ ok (r, with_silver))
second_run = ran (grant spell doubted praised 20) rises

last_run : (r : Receipt) × (revoke spell with_silver mistaken 40 ≡ ok (r, taken_back))
last_run = ran (revoke spell with_silver mistaken 40) falls

four_calls : Steps spell empty_store taken_back
four_calls =
    next
      (next
        (next (next no_call (granted earned 10 first_run.0 first_run.1)) (
          corrected withdrawn_source 15
            (ran_alone (flag_disputed spell with_bronze withdrawn_source 15) doubts)))
        (granted praised 20 second_run.0 second_run.1))
      (withdrawn mistaken 40 last_run.0 last_run.1)

Steps-IsLogged_example : All IsLogged taken_back.awards
Steps-IsLogged_example = Steps-IsLogged spell empty_store taken_back four_calls tt

Steps-IsUnique_example : IsUnique taken_back
Steps-IsUnique_example = Steps-IsUnique spell empty_store taken_back four_calls tt

grant-idempotent_example :
    (again : Receipt) × (grant spell with_silver praised 30 ≡ ok (again, with_silver))
    × IsRepetition second_run.0 again
grant-idempotent_example =
    grant-idempotent spell doubted with_silver praised 20 30 second_run.0 second_run.1 (omega arith)

grant-raises_example : rank_in doubted.awards 1 7 ≤ rank_in with_silver.awards 1 7
grant-raises_example =
    grant-raises spell doubted with_silver praised 20 second_run.0 1 7 second_run.1

comes_back : is_ok (grant spell taken_back earned_again 50) ≡ true
unfolding grant revoke flag_disputed text_beq json_eq contains spell strip validate_definition
    find_schema validate_tier last_proof
comes_back = refl

late_run :
    (r : Receipt) × (grant spell taken_back earned_again 50
      ≡ ok (r, after (grant spell taken_back earned_again 50)))
late_run = ran (grant spell taken_back earned_again 50) comes_back

answer-ok :
    (c : Checked (Receipt × Store)) (r : Receipt) (s : Store)
    → c ≡ ok (r, s)
    → answer c ≡ some r.outcome
answer-ok c r s h = cc

was_revoked : last_run.0.outcome ≡ GrantOutcome.revoked
was_revoked =
    let known = answer-ok (revoke spell with_silver mistaken 40) last_run.0 taken_back last_run.1 in
    let told = falls_answer in ground arith

automatic : is_manual earned_again.source_type ≡ false
unfolding text_beq
automatic = refl

revoke-blocks_example :
    (find_award 1 7 (after (grant spell taken_back earned_again 50)).awards ≡ some last_run.0.award)
    × (last_run.0.award.active_tier ≡ none)
revoke-blocks_example =
    revoke-blocks spell with_silver taken_back (after (grant spell taken_back earned_again 50))
      mistaken earned_again 40 50 last_run.0 late_run.0 last_run.1 was_revoked refl refl automatic
      late_run.1
