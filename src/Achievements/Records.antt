-- ===== src/Achievements/Records.antt =====
-- The tables of achievements/models.py that the services write. The events of an award stand in its
-- row, in the order in which they were recorded, which is the order of the table's queries. An award
-- is found by its user and its definition, of which the table has one row.
use ticket_sandbox.Prelude.{
  ℕ, Bool, true, false, ◌&&◌, List, [], ◌∷◌, Option, none, some, find, any, nat_beq, if◌then◌else◌,
}
use ticket_sandbox.Prelude.Text.{Text, text_beq, codes}
use ticket_sandbox.Prelude.Json.{Json}
use ticket_sandbox.Achievements.Catalog.{AchievementDefinition, AchievementTier}

-- Microseconds.
abbrev pub Time : Type 0
Time = ℕ

pub record User : Type 0 where
  pub id : ℕ
  pub is_authenticated : Bool
  pub is_staff : Bool

pub data Action : Type 0 where
  grant upgrade revoke evidence_disputed : Action

pub record AchievementEvent : Type 0 where
  pub id : ℕ
  pub action : Action
  pub from_tier : Option AchievementTier
  pub to_tier : Option AchievementTier
  pub actor : Option ℕ
  pub occurred_at : Time
  pub recorded_at : Time
  pub source_type : Text
  pub source_ref : Text
  pub rule_version : ℕ
  pub evidence : Json
  pub evidence_digest : Text
  pub reason : Text
  pub idempotency_key : Text
  pub revoked_event : Option ℕ

pub record UserAchievement : Type 0 where
  pub id : ℕ
  pub user_id : ℕ
  pub definition : ℕ
  pub active_tier : Option AchievementTier
  pub first_granted_at : Option Time
  pub last_upgraded_at : Option Time
  pub last_changed_at : Option Time
  pub revision : ℕ
  pub auto_grant_blocked : Bool
  pub evidence_disputed : Bool
  pub events : List AchievementEvent

-- What became of a request.
pub data GrantOutcome : Type 0 where
  granted upgraded revoked suppressed no_op duplicate : GrantOutcome

-- A receipt: the award is named by its user and definition.
pub record AchievementOperation : Type 0 where
  pub key : Text
  pub request_digest : Text
  pub user_id : ℕ
  pub definition : ℕ
  pub event : Option AchievementEvent
  pub outcome : GrantOutcome

pub record AchievementNotification : Type 0 where
  pub event : ℕ
  pub user_id : ℕ
  pub read_at : Option Time
  pub claim_token : Option Text
  pub claim_expires_at : Option Time

-- The rows; `next_award` and `next_event` are the next numbers of the two tables.
pub record Store : Type 0 where
  pub users : List ℕ
  pub definitions : List AchievementDefinition
  pub tiers : List AchievementTier
  pub awards : List UserAchievement
  pub operations : List AchievementOperation
  pub notifications : List AchievementNotification
  pub boundary : Option Time
  pub next_award : ℕ
  pub next_event : ℕ

-- The award of a user and a definition.
unfoldable pub is_award : ℕ → ℕ → UserAchievement → Bool
is_award user definition a = nat_beq a.user_id user && nat_beq a.definition definition

unfoldable pub find_award : ℕ → ℕ → List UserAchievement → Option UserAchievement
find_award user definition rows = find (is_award user definition) rows

-- `save()`: the row with the same user and definition, or a new one.
unfoldable pub put_award : UserAchievement → List UserAchievement → List UserAchievement
unfolding is_award
put_award a [] = a ∷ []
put_award a (b ∷ rows) =
    if is_award a.user_id a.definition b then a ∷ rows else b ∷ put_award a rows

-- The defaults of a new row.
abbrev pub new_award : ℕ → ℕ → ℕ → UserAchievement
new_award id user definition = record {
  id = id;
  user_id = user;
  definition = definition;
  active_tier = none;
  first_granted_at = none;
  last_upgraded_at = none;
  last_changed_at = none;
  revision = 0;
  auto_grant_blocked = false;
  evidence_disputed = false;
  events = [];
}

-- `get_or_create(user_id=user, definition=definition)`
unfoldable pub get_or_new : Store → ℕ → ℕ → UserAchievement
unfolding find_award
get_or_new s user definition = elim (find_award user definition s.awards) [
  | none ↦ new_award s.next_award user definition
  | some a ↦ a
]

unfoldable pub find_operation : Text → List AchievementOperation → Option AchievementOperation
unfolding text_beq
find_operation key rows = find (λ o. text_beq o.key key) rows

-- Whether the unique column `idempotency_key` holds the key.
unfoldable pub key_taken : Text → List UserAchievement → Bool
unfolding text_beq
key_taken key rows = any (λ a. any (λ e. text_beq e.idempotency_key key) a.events) rows

unfoldable pub is_proof : AchievementEvent → Bool
is_proof e = elim e.action [ Action.grant ↦ true | Action.upgrade ↦ true | _ ↦ false ]

-- `events.filter(action__in=["grant", "upgrade"]).last()`
unfoldable pub last_proof : List AchievementEvent → Option AchievementEvent
unfolding is_proof
last_proof [] = none
last_proof (e ∷ es) = elim (last_proof es) [
  | some p ↦ some p
  | none ↦ if is_proof e then some e else none
]

abbrev pub is_manual : Text → Bool
is_manual source_type = text_beq source_type (codes "manual")
