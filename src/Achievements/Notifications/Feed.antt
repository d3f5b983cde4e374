-- ===== src/Achievements/Notifications/Feed.antt =====
-- `feed` of achievements/services/notifications.py; its address and its poll time are left out.
use ticket_sandbox.Prelude.{
  ℕ, Bool, true, not, List, [], ◌∷◌, take, none, some, ok, ◌>>=◌, keep, leb, ltb, length,
  if◌then◌else◌,
}
use ticket_sandbox.Prelude.Text.{text_eq}
use ticket_sandbox.Achievements.Errors.{Checked}
use ticket_sandbox.Achievements.Records.{Time, AchievementNotification, Store}
use ticket_sandbox.Achievements.Notifications.{Item, item, is_read, is_visible, owned, page_size}

abbrev pub is_claimable : Time → AchievementNotification → Bool
is_claimable now n = elim n.claim_expires_at [ none ↦ true | some t ↦ leb t now ]

-- `order_by("event_id")`
unfoldable pub insert_by_event :
    AchievementNotification → List AchievementNotification → List AchievementNotification
insert_by_event n [] = n ∷ []
insert_by_event n (m ∷ rows) =
    let rest = insert_by_event n rows in if leb n.event m.event then n ∷ m ∷ rows else m ∷ rest

unfoldable pub by_event : List AchievementNotification → List AchievementNotification
unfolding insert_by_event
by_event [] = []
by_event (n ∷ rows) = insert_by_event n (by_event rows)

pub record Feed : Type 0 where
  pub items : List Item
  pub unread_count : ℕ
  pub has_more : Bool

unfoldable pub items_of : Store → List AchievementNotification → Checked (List Item)
unfolding item
items_of s [] = ok []
items_of s (n ∷ rows) = do i ← item s n; is ← items_of s rows; ok (i ∷ is)

unfoldable pub unread : Store → ℕ → List AchievementNotification
unfolding owned is_visible
unread s user = keep (is_visible s) (keep (λ n. not (is_read n)) (owned s user))

unfoldable pub feed : Store → ℕ → Time → Checked Feed
unfolding unread by_event items_of
feed s user now =
    let available = keep (is_claimable now) (unread s user) in
    let rows = take page_size (by_event available) in
    items_of s rows >>= λ items. ok (record {
      items = items;
      unread_count = length (unread s user);
      has_more = ltb (length rows) (length available);
    })
