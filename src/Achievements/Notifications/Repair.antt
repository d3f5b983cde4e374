-- ===== src/Achievements/Notifications/Repair.antt =====
-- `repair_delivery` of achievements/services/notifications.py.
use ticket_sandbox.Prelude.{
  ℕ, Bool, not, ◌&&◌, List, [], ◌∷◌, ◌++◌, map, suc, take, Option, none, some, keep, any, leb,
  nat_beq, if◌then◌else◌,
}
use ticket_sandbox.Prelude.Text.{text_eq}
use ticket_sandbox.Achievements.Records.{Time, AchievementEvent, UserAchievement, Store, is_proof}
use ticket_sandbox.Achievements.Grants.{is_enqueued, enqueue}

-- The events that have no notification, with their awards.
unfoldable pub lacks_delivery : Store → Time → AchievementEvent → Bool
unfolding is_proof
lacks_delivery s started e =
    is_proof e && leb started e.recorded_at && not (any (λ n. nat_beq n.event e.id) s.notifications)

unfoldable pub undelivered :
    Store → Time → List UserAchievement → List (UserAchievement × AchievementEvent)
unfolding lacks_delivery
undelivered s started [] = []
undelivered s started (a ∷ rows) =
    map (λ e. (a, e)) (keep (lacks_delivery s started) a.events) ++ undelivered s started rows

-- `order_by("id")`
unfoldable pub insert_pair :
    UserAchievement × AchievementEvent
    → List (UserAchievement × AchievementEvent)
    → List (UserAchievement × AchievementEvent)
insert_pair p [] = p ∷ []
insert_pair p (q ∷ rows) =
    let rest = insert_pair p rows in if leb p.1.id q.1.id then p ∷ q ∷ rows else q ∷ rest

unfoldable pub pairs_by_id :
    List (UserAchievement × AchievementEvent) → List (UserAchievement × AchievementEvent)
unfolding insert_pair
pairs_by_id [] = []
pairs_by_id (p ∷ rows) = insert_pair p (pairs_by_id rows)

-- `sum(enqueue(event) for event in events)`, and the rows after it.
unfoldable pub enqueue_all : Store → List (UserAchievement × AchievementEvent) → ℕ × Store
unfolding enqueue
enqueue_all s [] = (0, s)
enqueue_all s (p ∷ rows) =
    let rest = enqueue_all (enqueue s p.0 p.1) rows in
    ((if is_enqueued s p.1 then suc rest.0 else rest.0), rest.1)

-- The number of notifications made and the rows, with the boundary that was read.
unfoldable pub repair_from : Store → ℕ → Option Time → ℕ × Store
unfolding undelivered pairs_by_id enqueue_all
repair_from s limit none = (0, s)
repair_from s limit (some started) =
    enqueue_all s (take limit (pairs_by_id (undelivered s started s.awards)))

unfoldable pub repair_delivery : Store → ℕ → ℕ × Store
unfolding repair_from
repair_delivery s limit = repair_from s limit s.boundary
