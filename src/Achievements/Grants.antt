-- ===== src/Achievements/Grants.antt =====
-- achievements/services/grants.py: awards are granted, upgraded, revoked and disputed. `digest`, the
-- SHA-256 of the canonical JSON, is a parameter. A call holds the row lock of its user, so the calls
-- for one user come one after the other.
pub mod Grant
pub mod Cases
pub mod Kept
pub mod Repeated
pub mod Again
pub mod Effect
pub mod Withdrawn
pub mod Corrected
pub mod Log
pub mod Revoke
pub mod Dispute
use Prim.Native.String.{String}
use ticket_sandbox.Prelude.{
  ℕ, ◌+◌, Bool, true, false, not, ◌&&◌, ◌||◌, List, [], ◌∷◌, ◌++◌, Option, none, some, ok, raised,
  ◌>>=◌, ◌>>◌, raise_if, find, leb, ltb, nat_beq, length, if◌then◌else◌, is_empty, nat_eq, any,
}
use ticket_sandbox.Prelude.Sets.{contains}
use ticket_sandbox.Prelude.Text.{Text, text_beq, codes, strip}
use ticket_sandbox.Prelude.Json.{Json, Items, Fields, get_field}
use ticket_sandbox.Achievements.Errors.{AchievementError, Checked}
use ticket_sandbox.Achievements.Catalog.{
  AchievementDefinition, AchievementTier, validate_definition, validate_tier,
}
use ticket_sandbox.Achievements.Records.{
  Time, User, Action, AchievementEvent, UserAchievement, GrantOutcome, AchievementOperation,
  AchievementNotification, Store, find_award, put_award, get_or_new, find_operation, key_taken,
  last_proof, is_proof, is_manual,
}

-- The keyword arguments of `grant`.
pub record GrantRequest : Type 0 where
  pub user_id : ℕ
  pub definition_id : ℕ
  pub tier_code : Text
  pub evidence : Json
  pub occurred_at : Option Time
  pub source_type : Text
  pub source_ref : Text
  pub operation_id : Text
  pub actor : Option User
  pub reason : Text
  pub expected_revision : Option ℕ
  pub rule_version : ℕ

pub record RevokeRequest : Type 0 where
  pub user_id : ℕ
  pub definition_id : ℕ
  pub actor : Option User
  pub reason : Text
  pub operation_id : Text
  pub expected_revision : Option ℕ

-- What a call returns beside the new rows.
pub record Receipt : Type 0 where
  pub award : UserAchievement
  pub outcome : GrantOutcome
  pub event : Option AchievementEvent

abbrev is_staff_user : Option User → Bool
is_staff_user none = false
is_staff_user (some u) = u.is_authenticated && u.is_staff

unfoldable pub staff_reason : Option User → Text → Checked (Unit {0})
staff_reason actor reason = do
  raise_if (not (is_staff_user actor)) AchievementError.permission_denied
  raise_if (is_empty (strip reason)) AchievementError.reason_required

-- `get_user_model().objects.get(pk=user_id)`
unfoldable pub lock_user : Store → ℕ → Checked (Unit {0})
lock_user s user = raise_if (not (contains user s.users)) AchievementError.does_not_exist

abbrev pub or_missing {ℓ} : {A : Type ℓ} → Option A → Checked A
or_missing none = raised AchievementError.does_not_exist
or_missing (some a) = ok a

unfoldable pub get_definition : Store → ℕ → Checked AchievementDefinition
get_definition s id = or_missing (find (λ d. nat_beq d.id id) s.definitions)

unfoldable pub get_tier : Store → ℕ → Text → Checked AchievementTier
get_tier s definition code =
    or_missing (find (λ t. nat_beq t.definition definition && text_beq t.code code) s.tiers)

-- A value as a condition.
abbrev is_truthy : Json → Bool
is_truthy Json.null = false
is_truthy (Json.boolean b) = b
is_truthy (Json.number n) = not (nat_beq n 0)
is_truthy (Json.text s) = not (is_empty s)
is_truthy (Json.array Items.end) = false
is_truthy (Json.array (Items.item j js)) = true
is_truthy (Json.object Fields.empty) = false
is_truthy (Json.object (Fields.field k v fs)) = true

-- `tier.parameters.get("automatic")`, as a condition.
unfoldable pub is_automatic : AchievementTier → Bool
unfolding text_beq
is_automatic t = elim t.parameters [
  | Json.object fs ↦ elim (get_field (codes "automatic") fs) [ some v ↦ is_truthy v | none ↦ false ]
  | _ ↦ false
]

-- `expected_revision is not None and entitlement.revision != expected_revision`
unfoldable pub check_revision : Option ℕ → UserAchievement → Checked (Unit {0})
check_revision none a = ok tt
check_revision (some n) a = raise_if (not (nat_beq a.revision n)) AchievementError.revision_changed

abbrev pub tier_rank : Option AchievementTier → ℕ
tier_rank none = 0
tier_rank (some t) = t.rank

-- `entitlement.active_tier and tier.rank <= entitlement.active_tier.rank`
abbrev pub is_no_higher : AchievementTier → Option AchievementTier → Bool
is_no_higher t none = false
is_no_higher t (some active) = leb t.rank active.rank

abbrev pub or_now : Option Time → Time → Time
or_now none now = now
or_now (some t) now = t

abbrev grant_action : Option AchievementTier → Action
grant_action none = Action.grant
grant_action (some t) = Action.upgrade

abbrev pub grant_outcome : Option AchievementTier → GrantOutcome
grant_outcome none = GrantOutcome.granted
grant_outcome (some t) = GrantOutcome.upgraded

abbrev actor_id : Option User → Option ℕ
actor_id none = none
actor_id (some u) = some u.id

abbrev pub json_list : List Json → Json
json_list js = Json.array (items js)
  where
    items : List Json → Items
    items [] = Items.end
    items (j ∷ js) = Items.item j (items js)

abbrev id_json : Option ℕ → Json
id_json none = Json.null
id_json (some n) = Json.number n

abbrev pub named_event : String → ℕ → Json
named_event name id = Json.object (Fields.field (codes name) (Json.number id) Fields.empty)

-- `AchievementOperation.objects.create(...)`: the key is a unique column.
unfoldable pub remember :
    Text
    → Text
    → Store
    → UserAchievement
    → GrantOutcome
    → Option AchievementEvent
    → Checked (Receipt × Store)
unfolding find_operation
remember key request_digest s a outcome event = elim (find_operation key s.operations) [
  | some o ↦ raised AchievementError.integrity_error
  | none ↦ ok (
    record { award = a; outcome = outcome; event = event },
    record s {
      operations =
          s.operations
          ++ record {
            key = key;
            request_digest = request_digest;
            user_id = a.user_id;
            definition = a.definition;
            event = event;
            outcome = outcome;
          }
            ∷ [];
    },
  )
]

-- `repeated`: the award of the receipt with the key, and its event.
unfoldable pub repeated : Text → Text → Store → Checked (Option Receipt)
unfolding find_operation
repeated key request_digest s = elim (find_operation key s.operations) [
  | none ↦ ok none
  | some o ↦ do
    raise_if (not (text_beq o.request_digest request_digest)) AchievementError.operation_reused
    a ← or_missing (find_award o.user_id o.definition s.awards)
    ok (some (record { award = a; outcome = GrantOutcome.duplicate; event = o.event }))
]

abbrev is_foreign : ℕ → Option AchievementTier → Bool
is_foreign definition none = false
is_foreign definition (some t) = not (nat_beq t.definition definition)

abbrev is_upgrade : Option AchievementTier → Option AchievementTier → Bool
is_upgrade (some from) (some to) = ltb from.rank to.rank
is_upgrade _ _ = false

abbrev staff_flag : Option User → Bool
staff_flag none = false
staff_flag (some u) = u.is_staff

abbrev action_is_upgrade : Action → Bool
action_is_upgrade Action.upgrade = true
action_is_upgrade _ = false

abbrev action_is_revoke : Action → Bool
action_is_revoke Action.revoke = true
action_is_revoke _ = false

-- `AchievementEvent.clean`, of an event by `actor`.
unfoldable pub clean_event : UserAchievement → AchievementEvent → Option User → Checked (Unit {0})
clean_event a e actor = do
  raise_if (is_foreign a.definition e.from_tier || is_foreign a.definition e.to_tier)
      AchievementError.foreign_tier
  raise_if (action_is_upgrade e.action && not (is_upgrade e.from_tier e.to_tier))
      AchievementError.not_an_upgrade
  raise_if (action_is_revoke e.action && not (is_manual e.source_type))
      AchievementError.revoke_not_manual
  raise_if (is_manual e.source_type && (not (staff_flag actor) || is_empty (strip e.reason)))
      AchievementError.manual_without_reason

-- `AchievementEvent.objects.create(...)`, and `entitlement.save()` of the award with its new columns.
unfoldable pub record_event :
    Store → UserAchievement → AchievementEvent → Option User → Checked (UserAchievement × Store)
unfolding key_taken clean_event put_award
record_event s a e actor = do
  clean_event a e actor
  raise_if (key_taken e.idempotency_key s.awards) AchievementError.integrity_error
  let b = record a { events = a.events ++ e ∷ [] }
  ok (b, record s { awards = put_award b s.awards; next_event = s.next_event + 1 })

-- Whether `get_or_create` makes a row for the event: the boundary is past, and there is none.
unfoldable pub is_enqueued : Store → AchievementEvent → Bool
unfolding is_proof
is_enqueued s e = elim s.boundary [
  | none ↦ false
  | some started ↦
      is_proof e
      && leb started e.recorded_at
      && not (any (λ n. nat_beq n.event e.id) s.notifications)
]

-- `enqueue`, for an event of the award.
unfoldable pub enqueue : Store → UserAchievement → AchievementEvent → Store
unfolding is_enqueued
enqueue s a e =
    if is_enqueued s e
    then (record s {
      notifications =
          s.notifications
          ++ record {
            event = e.id;
            user_id = a.user_id;
            read_at = none;
            claim_token = none;
            claim_expires_at = none;
          }
            ∷ [];
    })
    else s
