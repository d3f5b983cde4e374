-- ===== src/Achievements/Grants/Dispute.antt =====
-- `flag_disputed` of achievements/services/grants.py.
use ticket_sandbox.Prelude.{
  ℕ, ◌+◌, Bool, true, false, not, ◌&&◌, ◌||◌, List, [], ◌∷◌, Option, none, some, ok, raised, ◌>>=◌,
  ◌>>◌, nat_beq, if◌then◌else◌,
}
use ticket_sandbox.Prelude.Text.{Text, text_beq, codes}
use ticket_sandbox.Prelude.Json.{Json, get_field, json_eq}
use ticket_sandbox.Achievements.Errors.{AchievementError, Checked}
use ticket_sandbox.Achievements.Catalog.{AchievementDefinition}
use ticket_sandbox.Achievements.Records.{
  Time, Action, AchievementEvent, UserAchievement, Store, key_taken, last_proof, is_manual,
}
use ticket_sandbox.Achievements.Grants.{lock_user, get_definition, json_list, record_event}
use ticket_sandbox.Achievements.Grants.{named_event}

-- The keyword arguments of `flag_disputed`: the source as JSON and as text, and the reason that the
-- code writes.
pub record Correction : Type 0 where
  pub user_id : ℕ
  pub metric_id : Option ℕ
  pub confirmation_revoked : Bool
  pub source_id : Json
  pub source_text : Text
  pub definition_id : Option ℕ
  pub sandbox_invalid : Bool
  pub reason : Text

-- `metric_id is not None and event.evidence.get("metric_id") == metric_id`: the evidence is read only
-- for a metric, and has `get` only if it is an object.
abbrev pub names_metric : Option ℕ → Json → Checked Bool
names_metric none evidence = ok false
names_metric (some n) (Json.object fs) =
    ok (elim (get_field (codes "metric_id") fs) [
      | none ↦ false
      | some v ↦ json_eq v (Json.number n)
    ])
names_metric (some n) _ = raised AchievementError.attribute_error

abbrev pub asks_for : Option ℕ → ℕ → Bool
asks_for none definition = true
asks_for (some d) definition = nat_beq definition d

abbrev pub has_tier : UserAchievement → Bool
has_tier a = elim a.active_tier [ none ↦ false | some t ↦ true ]

-- The rows of the query, without those of another definition.
abbrev pub is_concerned : Correction → UserAchievement → Bool
is_concerned c a =
    nat_beq a.user_id c.user_id && has_tier a && asks_for c.definition_id a.definition

-- What a correction of a source is about.
unfoldable pub is_affected : Correction → AchievementDefinition → AchievementEvent → Checked Bool
unfolding json_eq text_beq
is_affected c definition proof = names_metric c.metric_id proof.evidence >>= λ named. ok (
    named
    || (c.confirmation_revoked && text_beq definition.evaluator_key (codes "training_program"))
    || (c.sandbox_invalid
        && (text_beq definition.evaluator_key (codes "sandbox_program")
            || text_beq definition.evaluator_key (codes "sandbox_first_five_clean_answers"))))

abbrev pub disputed_award : UserAchievement → Time → UserAchievement
disputed_award a now = record a {
  evidence_disputed = true;
  revision = a.revision + 1;
  last_changed_at = some now;
}

module _ (digest : Json → Text) where
  unfoldable pub dispute_event :
      Correction → UserAchievement → AchievementEvent → Text → ℕ → Time → AchievementEvent
  dispute_event c a proof key id now = record {
    id = id;
    action = Action.evidence_disputed;
    from_tier = a.active_tier;
    to_tier = a.active_tier;
    actor = none;
    occurred_at = now;
    recorded_at = now;
    source_type = codes "source_correction";
    source_ref = c.source_text;
    rule_version = proof.rule_version;
    evidence = named_event "disputed_event_id" proof.id;
    evidence_digest = digest (named_event "disputed_event_id" proof.id);
    reason = c.reason;
    idempotency_key = key;
    revoked_event = none;
  }

  abbrev pub dispute_key : Correction → UserAchievement → Text
  dispute_key c a =
      digest (json_list (Json.text (codes "dispute") ∷ c.source_id ∷ Json.number a.id ∷ []))

  -- The rest of the body of the loop, on whether the award is affected.
  unfoldable pub dispute_affected :
      Store → Correction → UserAchievement → AchievementEvent → Time → Bool → Checked Store
  unfolding dispute_event record_event key_taken
  dispute_affected s c a proof now affected =
      if not affected || key_taken (dispute_key c a) s.awards
      then ok s
      else (record_event s (disputed_award a now)
            (dispute_event c a proof (dispute_key c a) s.next_event now) none
          >>= λ saved. ok saved.1)

  -- The body of the loop, on an award with its last proof and its definition.
  unfoldable pub dispute_due :
      Store
      → Correction
      → UserAchievement
      → AchievementEvent
      → Time
      → AchievementDefinition
      → Checked Store
  unfolding is_affected dispute_affected
  dispute_due s c a proof now definition =
      is_affected c definition proof >>= dispute_affected s c a proof now

  unfoldable pub dispute_proof :
      Store → Correction → UserAchievement → AchievementEvent → Time → Checked Store
  unfolding dispute_due get_definition
  dispute_proof s c a proof now =
      if is_manual proof.source_type
      then ok s
      else (get_definition s a.definition >>= dispute_due s c a proof now)

  unfoldable pub dispute_award : Store → Correction → UserAchievement → Time → Checked Store
  unfolding dispute_proof
  dispute_award s c a now =
      if not (is_concerned c a)
      then ok s
      else (elim (last_proof a.events) [ none ↦ ok s | some proof ↦ dispute_proof s c a proof now ])

  -- The loop over the rows that the query gave.
  unfoldable pub dispute_awards : Store → Correction → List UserAchievement → Time → Checked Store
  unfolding dispute_award
  dispute_awards s c [] now = ok s
  dispute_awards s c (a ∷ rows) now = dispute_award s c a now >>= λ t. dispute_awards t c rows now

  unfoldable pub flag_disputed : Store → Correction → Time → Checked Store
  unfolding lock_user dispute_awards
  flag_disputed s c now = lock_user s c.user_id >> dispute_awards s c s.awards now
