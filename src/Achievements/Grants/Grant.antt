-- ===== src/Achievements/Grants/Grant.antt =====
-- `grant` of achievements/services/grants.py.
use ticket_sandbox.Prelude.{
  ℕ, ◌+◌, Bool, true, not, ◌&&◌, ◌||◌, [], ◌∷◌, Option, none, some, ok, raised, ◌>>=◌, ◌>>◌,
  raise_if, ltb, nat_beq, length, if◌then◌else◌, is_empty, max,
}
use ticket_sandbox.Prelude.Text.{Text, codes, strip}
use ticket_sandbox.Prelude.Json.{Json}
use ticket_sandbox.Achievements.Errors.{AchievementError, Checked}
use ticket_sandbox.Achievements.Catalog.{AchievementTier, validate_definition, validate_tier}
use ticket_sandbox.Achievements.Records.{
  Time, AchievementEvent, UserAchievement, GrantOutcome, Store, put_award, get_or_new, is_manual,
}
use ticket_sandbox.Achievements.Grants.{
  GrantRequest, Receipt, staff_reason, lock_user, get_definition, get_tier, is_automatic,
  check_revision, is_no_higher, or_now, grant_action, grant_outcome, actor_id, json_list, id_json,
  remember, repeated, record_event, enqueue,
}

-- Who may ask: a manual request needs a member of staff and a reason, another has no actor.
unfoldable pub check_actor : GrantRequest → Checked (Unit {0})
unfolding staff_reason
check_actor q =
    if is_manual q.source_type
    then staff_reason q.actor q.reason
    else elim q.actor [ none ↦ ok tt | some u ↦ raised AchievementError.automatic_actor ]

-- `occurred_at is None or occurred_at > now`; a time of the model has its time zone.
abbrev pub is_bad_date : Option Time → Time → Bool
is_bad_date none now = true
is_bad_date (some t) now = ltb now t

abbrev occurred : Option Time → Time → Time
occurred none now = now
occurred (some t) now = t

abbrev upgraded_at : Option AchievementTier → Option Time → Time → Option Time
upgraded_at none last now = last
upgraded_at (some t) last now = some now

abbrev pub raised_award : UserAchievement → AchievementTier → Time → UserAchievement
raised_award a tier now = record a {
  active_tier = some tier;
  first_granted_at = some (or_now a.first_granted_at now);
  last_upgraded_at = upgraded_at a.active_tier a.last_upgraded_at now;
  last_changed_at = some now;
  revision = a.revision + 1;
}

-- The answer to a request that was made before.
unfoldable pub grant_again : Store → GrantRequest → Receipt → Checked (Receipt × Store)
grant_again s q r = ok (
  (if not (is_manual q.source_type) && r.award.auto_grant_blocked
      then (record { award = r.award; outcome = GrantOutcome.suppressed; event = none })
      else r),
  s,
)

-- The tier that a request asks for, once it is admitted.
unfoldable pub admit_grant : Store → GrantRequest → Time → Checked AchievementTier
unfolding check_actor lock_user get_definition get_tier is_automatic
admit_grant s q now = do
  check_actor q
  raise_if (is_bad_date q.occurred_at now) AchievementError.bad_date
  lock_user s q.user_id
  definition ← get_definition s q.definition_id
  validate_definition definition
  raise_if (not definition.active || not (nat_beq definition.rule_version q.rule_version))
      AchievementError.rule_changed
  tier ← get_tier s q.definition_id q.tier_code
  validate_tier definition tier
  raise_if (not (is_manual q.source_type) && not (is_automatic tier))
      AchievementError.automatic_disabled
  ok tier

module _ (digest : Json → Text) where
  unfoldable pub operation_key : ℕ → ℕ → Text → Text → Checked Text
  operation_key user definition action operation_id = do
    raise_if (is_empty (strip operation_id) || ltb 150 (length operation_id))
        AchievementError.operation_id_required
    ok (
        digest (
          json_list (
            Json.number user
            ∷ Json.number definition
            ∷ Json.text action
            ∷ Json.text operation_id
            ∷ [])))

  abbrev pub grant_digest : AchievementTier → GrantRequest → Text
  grant_digest tier q = digest (
      json_list (
        Json.number tier.id
        ∷ q.evidence
        ∷ Json.text q.source_type
        ∷ Json.text q.source_ref
        ∷ Json.text (strip q.reason)
        ∷ id_json (actor_id q.actor)
        ∷ Json.number q.rule_version
        ∷ []))

  -- The event of a grant or an upgrade, and the award's columns after it.
  unfoldable pub grant_event :
      GrantRequest → AchievementTier → UserAchievement → Text → ℕ → Time → AchievementEvent
  grant_event q tier a key id now = record {
    id = id;
    action = grant_action a.active_tier;
    from_tier = a.active_tier;
    to_tier = some tier;
    actor = actor_id q.actor;
    occurred_at = occurred q.occurred_at now;
    recorded_at = now;
    source_type = q.source_type;
    source_ref = q.source_ref;
    rule_version = q.rule_version;
    evidence = q.evidence;
    evidence_digest = digest q.evidence;
    reason = strip q.reason;
    idempotency_key = key;
    revoked_event = none;
  }

  -- The branch on a request that raises the award.
  unfoldable pub raise_award :
      Store
      → GrantRequest
      → AchievementTier
      → UserAchievement
      → Text
      → Text
      → Time
      → Checked (Receipt × Store)
  unfolding grant_event remember record_event enqueue
  raise_award s q tier a key request_digest now = do
    let e = grant_event q tier a key s.next_event now
    saved ← record_event s (raised_award a tier now) e q.actor
    remember key request_digest (enqueue saved.1 saved.0 e) saved.0 (grant_outcome a.active_tier)
        (some e)

  -- A request whose key is new: `a` is the row that it found or created.
  unfoldable pub grant_new :
      Store
      → GrantRequest
      → AchievementTier
      → UserAchievement
      → Text
      → Text
      → Time
      → Checked (Receipt × Store)
  unfolding raise_award check_revision put_award
  grant_new s q tier a key request_digest now =
      let t = record s {
        awards = put_award a s.awards;
        next_award = max s.next_award (a.id + 1);
      } in
      check_revision q.expected_revision a
      >> (if not (is_manual q.source_type) && a.auto_grant_blocked
          then remember key request_digest t a GrantOutcome.suppressed none
          else (if is_no_higher tier a.active_tier
              then remember key request_digest t a GrantOutcome.no_op none
              else raise_award t q tier a key request_digest now))

  unfoldable pub grant : Store → GrantRequest → Time → Checked (Receipt × Store)
  unfolding admit_grant operation_key repeated get_or_new grant_new grant_again
  grant s q now = do
    tier ← admit_grant s q now
    key ← operation_key q.user_id q.definition_id (codes "grant") q.operation_id
    repeat ← repeated key (grant_digest tier q) s
    elim repeat [
      | some r ↦ grant_again s q r
      | none ↦
          grant_new s q tier (get_or_new s q.user_id q.definition_id) key (grant_digest tier q) now
    ]
