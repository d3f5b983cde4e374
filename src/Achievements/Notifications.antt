-- ===== src/Achievements/Notifications.antt =====
-- achievements/services/notifications.py: who sees a notification, its lease and its acknowledgement.
-- `lease_seconds`, in microseconds, and `page_size` are its two constants. The titles and links of an
-- item are left out, and a claim's token stands for the UUID that `token` has read.
pub mod Feed
pub mod Repair
pub mod Lease
pub mod Exclusive
pub mod Shown
pub mod InOrder
pub mod Delivery
use ticket_sandbox.Prelude.{
  ℕ, ◌+◌, ◌-◌, Bool, true, false, not, ◌&&◌, ◌||◌, List, [], ◌∷◌, ◌++◌, map, Option, none, some, ok,
  raised, ◌>>=◌, ◌>>◌, raise_if, find, keep, any, leb, ltb, nat_beq, length, if◌then◌else◌,
}
use ticket_sandbox.Prelude.Sets.{contains}
use ticket_sandbox.Prelude.Text.{Text, text_eq, text_beq, codes}
use ticket_sandbox.Achievements.Errors.{AchievementError, Checked}
use ticket_sandbox.Achievements.Catalog.{AchievementDefinition, AchievementTier, Rarity, art_keys}
use ticket_sandbox.Achievements.Records.{
  Time, Action, AchievementEvent, UserAchievement, AchievementNotification, Store, is_proof,
}
use ticket_sandbox.Achievements.Grants.{lock_user, or_missing, enqueue}

abbrev pub lease_seconds : Time
lease_seconds = 90000000

abbrev pub page_size : ℕ
page_size = 10

-- The event with a number, and its award.
unfoldable pub find_event : ℕ → List UserAchievement → Option (UserAchievement × AchievementEvent)
find_event id [] = none
find_event id (a ∷ rows) = elim (find (λ e. nat_beq e.id id) a.events) [
  | some e ↦ some (a, e)
  | none ↦ find_event id rows
]

abbrev is_earned_by : ℕ → Option (UserAchievement × AchievementEvent) → Bool
is_earned_by user none = false
is_earned_by user (some (a, e)) = nat_beq a.user_id user && is_proof e

unfoldable pub is_owned : Store → ℕ → AchievementNotification → Bool
unfolding find_event is_proof
is_owned s user n = nat_beq n.user_id user && is_earned_by user (find_event n.event s.awards)

unfoldable pub owned : Store → ℕ → List AchievementNotification
unfolding is_owned
owned s user = keep (is_owned s user) s.notifications

abbrev pub is_shown : Option AchievementDefinition → Option AchievementTier → Bool
is_shown none tier = false
is_shown (some d) none = d.active && not d.secret
is_shown (some d) (some t) = d.active

unfoldable pub is_visible : Store → AchievementNotification → Bool
unfolding find_event
is_visible s n = elim (find_event n.event s.awards) [
  | none ↦ false
  | some p ↦ is_shown (find (λ d. nat_beq d.id p.0.definition) s.definitions) p.0.active_tier
]

abbrev pub is_read : AchievementNotification → Bool
is_read n = elim n.read_at [ none ↦ false | some t ↦ true ]

pub record TierItem : Type 0 where
  pub code : Text
  pub rank : ℕ
  pub rarity : Rarity

pub record Item : Type 0 where
  pub event_id : ℕ
  pub action : Action
  pub secret : Bool
  pub from_tier : Option TierItem
  pub to_tier : Option TierItem
  pub recorded_at : Time
  pub art_key : Text
  pub read : Bool
  pub read_at : Option Time

abbrev tier_item : Option AchievementTier → Option TierItem
tier_item none = none
tier_item (some t) = some (record { code = t.code; rank = t.rank; rarity = t.rarity })

unfoldable pub item_of :
    AchievementNotification → UserAchievement → AchievementEvent → AchievementDefinition → Item
item_of n a e d = record {
  event_id = e.id;
  action = e.action;
  secret = d.secret;
  from_tier = tier_item e.from_tier;
  to_tier = tier_item e.to_tier;
  recorded_at = e.recorded_at;
  art_key = if contains d.art_key art_keys then d.art_key else codes "generic";
  read = is_read n;
  read_at = n.read_at;
}

-- An item, of a notification whose event and definition are there.
unfoldable pub item : Store → AchievementNotification → Checked Item
unfolding item_of find_event
item s n = do
  p ← or_missing (find_event n.event s.awards)
  d ← or_missing (find (λ d. nat_beq d.id p.0.definition) s.definitions)
  ok (item_of n p.0 p.1 d)

-- The answer to a claim.
pub data Claimed : Type 0 where
  already_read : ℕ → Claimed
  leased : Item → Text → Claimed

-- `claim_token == token`
abbrev pub is_holder : Option Text → Text → Bool
is_holder none token = false
is_holder (some t) token = text_beq t token

abbrev pub is_leased : AchievementNotification → Time → Bool
is_leased n now = elim n.claim_expires_at [ none ↦ false | some t ↦ ltb now t ]

-- `save()`: an event has one notification.
unfoldable pub put_notification :
    AchievementNotification → List AchievementNotification → List AchievementNotification
put_notification n [] = []
put_notification n (m ∷ rows) =
    if nat_beq m.event n.event then n ∷ rows else m ∷ put_notification n rows

-- `owned(user_id).get(event_id=event_id)`
unfoldable pub get_owned : Store → ℕ → ℕ → Checked AchievementNotification
unfolding owned
get_owned s user event = or_missing (find (λ n. nat_beq n.event event) (owned s user))

abbrev pub leased_to : AchievementNotification → Text → Time → AchievementNotification
leased_to n token now = record n {
  claim_token = some token;
  claim_expires_at = some (now + lease_seconds);
}

abbrev pub read_by : AchievementNotification → Time → AchievementNotification
read_by n now = record n { read_at = some now; claim_expires_at = none }

-- A claim of a notification that is not read.
unfoldable pub lease_to : Store → AchievementNotification → Text → Time → Checked (Claimed × Store)
unfolding is_visible put_notification item
lease_to s n token now = do
  raise_if (not (is_visible s n)) AchievementError.does_not_exist
  raise_if (not (is_holder n.claim_token token) && is_leased n now) AchievementError.already_claimed
  i ← item s (leased_to n token now)
  ok (
    Claimed.leased i token,
    record s { notifications = put_notification (leased_to n token now) s.notifications },
  )

unfoldable pub claim : Store → ℕ → ℕ → Text → Time → Checked (Claimed × Store)
unfolding lock_user get_owned lease_to
claim s user event token now = do
  lock_user s user
  n ← get_owned s user event
  if is_read n then ok (Claimed.already_read event, s) else lease_to s n token now

-- The time of reading, which the answer holds.
unfoldable pub acknowledge_owned :
    Store → AchievementNotification → Text → Time → Checked (Time × Store)
unfolding put_notification
acknowledge_owned s n token now = elim n.read_at [
  | some read ↦ ok (read, s)
  | none ↦ do
    raise_if (not (is_holder n.claim_token token)) AchievementError.claim_required
    ok (now, record s { notifications = put_notification (read_by n now) s.notifications })
]

unfoldable pub acknowledge : Store → ℕ → ℕ → Text → Time → Checked (Time × Store)
unfolding get_owned acknowledge_owned
acknowledge s user event token now = do n ← get_owned s user event; acknowledge_owned s n token now
