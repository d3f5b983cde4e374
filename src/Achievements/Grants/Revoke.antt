-- ===== src/Achievements/Grants/Revoke.antt =====
-- `revoke` of achievements/services/grants.py.
use ticket_sandbox.Prelude.{ℕ, ◌+◌, true, [], ◌∷◌, Option, none, some, ok, raised, ◌>>=◌, ◌>>◌}
use ticket_sandbox.Prelude.Text.{Text, codes, strip}
use ticket_sandbox.Prelude.Json.{Json}
use ticket_sandbox.Achievements.Errors.{AchievementError, Checked}
use ticket_sandbox.Achievements.Catalog.{AchievementDefinition}
use ticket_sandbox.Achievements.Records.{
  Time, User, Action, AchievementEvent, UserAchievement, GrantOutcome, Store, find_award,
  last_proof,
}
use ticket_sandbox.Achievements.Grants.{
  RevokeRequest, Receipt, staff_reason, lock_user, or_missing, get_definition, check_revision,
  actor_id, json_list, id_json, remember, repeated, record_event,
}
use ticket_sandbox.Achievements.Grants.{named_event}
use ticket_sandbox.Achievements.Grants.Grant.{operation_key}

abbrev pub revoked_award : UserAchievement → Time → UserAchievement
revoked_award a now = record a {
  active_tier = none;
  auto_grant_blocked = true;
  last_changed_at = some now;
  revision = a.revision + 1;
}

module _ (digest : Json → Text) where
  abbrev pub revoke_digest : Option User → Text → Text
  revoke_digest actor reason =
      digest (json_list (id_json (actor_id actor) ∷ Json.text (strip reason) ∷ []))

  unfoldable pub revoke_event :
      RevokeRequest
      → AchievementDefinition
      → UserAchievement
      → AchievementEvent
      → Text
      → ℕ
      → Time
      → AchievementEvent
  revoke_event q definition a last key id now = record {
    id = id;
    action = Action.revoke;
    from_tier = a.active_tier;
    to_tier = none;
    actor = actor_id q.actor;
    occurred_at = now;
    recorded_at = now;
    source_type = codes "manual";
    source_ref = q.operation_id;
    rule_version = definition.rule_version;
    evidence = named_event "revoked_event_id" last.id;
    evidence_digest = digest (named_event "revoked_event_id" last.id);
    reason = strip q.reason;
    idempotency_key = key;
    revoked_event = some last.id;
  }

  -- The branch on an award that has a tier.
  unfoldable pub withdraw :
      Store
      → RevokeRequest
      → AchievementDefinition
      → UserAchievement
      → Text
      → Text
      → Time
      → Checked (Receipt × Store)
  unfolding revoke_event remember record_event
  withdraw s q definition a key request_digest now = elim (last_proof a.events) [
    | none ↦ raised AchievementError.attribute_error
    | some last ↦ do
      let e = revoke_event q definition a last key s.next_event now
      saved ← record_event s (revoked_award a now) e q.actor
      remember key request_digest saved.1 saved.0 GrantOutcome.revoked (some e)
  ]

  unfoldable pub revoke_new :
      Store
      → RevokeRequest
      → AchievementDefinition
      → UserAchievement
      → Text
      → Text
      → Time
      → Checked (Receipt × Store)
  unfolding withdraw check_revision
  revoke_new s q definition a key request_digest now =
      check_revision q.expected_revision a >> (elim a.active_tier [
        | none ↦ remember key request_digest s a GrantOutcome.no_op none
        | some t ↦ withdraw s q definition a key request_digest now
      ])

  unfoldable pub revoke : Store → RevokeRequest → Time → Checked (Receipt × Store)
  unfolding staff_reason lock_user get_definition operation_key repeated revoke_new
  revoke s q now = do
    staff_reason q.actor q.reason
    lock_user s q.user_id
    definition ← get_definition s q.definition_id
    key ← operation_key digest q.user_id q.definition_id (codes "revoke") q.operation_id
    repeat ← repeated key (revoke_digest q.actor q.reason) s
    elim repeat [
      | some r ↦ ok (r, s)
      | none ↦ or_missing (find_award q.user_id q.definition_id s.awards) >>= λ a.
          revoke_new s q definition a key (revoke_digest q.actor q.reason) now
    ]
