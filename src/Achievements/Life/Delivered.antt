-- ===== src/Achievements/Life/Delivered.antt =====
-- The rows of AchievementNotification (achievements/models.py) when one is made or saved.
use ticket_sandbox.Prelude.{
  ℕ, ◌≡◌, ◌≢◌, refl, ap, false, List, [], ◌∷◌, ◌++◌, Option, none, some, ok, any, take, arith,
  nat_beq, nat_eq, Bool-cases, Option-cases, inl, inr,
}
use ticket_sandbox.Prelude.Text.{Text}
use ticket_sandbox.Prelude.Sets.{contains, IsNodup}
use ticket_sandbox.Achievements.Records.{
  Time, User, AchievementEvent, Store, UserAchievement, AchievementNotification, GrantOutcome,
}
use ticket_sandbox.Achievements.Grants.{Receipt, remember, record_event, enqueue, is_enqueued}
use ticket_sandbox.Achievements.Grants.Repeated.{record_event-same}
use ticket_sandbox.Achievements.Notifications.{put_notification}
use ticket_sandbox.Achievements.Notifications.Repair.{
  repair_from, enqueue_all, pairs_by_id, undelivered,
}
use ticket_sandbox.Achievements.Notifications.Lease.{delivered}

abbrev pub IsUnique : Store → Type 0
IsUnique s = IsNodup (delivered s.notifications)

pub delivered-put :
    (n : AchievementNotification) (rows : List AchievementNotification)
    → delivered (put_notification n rows) ≡ delivered rows
unfolding put_notification
delivered-put n [] = refl
delivered-put n (m ∷ rows) = elim (Bool-cases (nat_beq m.event n.event)) [
  | inl here ↦ ground arith
  | inr there ↦ ground (arith, delivered-put n rows)
]

contains-any :
    (rows : List AchievementNotification) (id : ℕ)
    → any (λ n. nat_beq n.event id) rows ≡ contains id (delivered rows)
unfolding contains
contains-any [] id = refl
contains-any (n ∷ rows) id = ground (arith, contains-any rows id)

contains-snoc :
    (xs : List ℕ) (x y : ℕ) → contains x xs ≡ false → x ≢ y → contains x (xs ++ y ∷ []) ≡ false
unfolding contains
contains-snoc [] x y h d = ground arith
contains-snoc (z ∷ xs) x y h d = ground (arith, contains-snoc xs x y)

IsNodup-snoc : (xs : List ℕ) (y : ℕ) → contains y xs ≡ false → IsNodup xs → IsNodup (xs ++ y ∷ [])
unfolding contains
IsNodup-snoc [] y h v = (refl, tt)
IsNodup-snoc (x ∷ xs) y h v =
    (contains-snoc xs x y v.0 (ground arith), IsNodup-snoc xs y (ground arith) v.1)

delivered-snoc :
    (rows : List AchievementNotification) (n : AchievementNotification)
    → delivered (rows ++ n ∷ []) ≡ delivered rows ++ n.event ∷ []
delivered-snoc [] n = refl
delivered-snoc (m ∷ rows) n = ap (λ r. m.event ∷ r) (delivered-snoc rows n)

pub enqueue-IsUnique :
    (s : Store) (a : UserAchievement) (e : AchievementEvent) → IsUnique s → IsUnique (enqueue s a e)
unfolding enqueue is_enqueued
enqueue-IsUnique s a e v = elim (Bool-cases (is_enqueued s e)) [
  | inr old ↦ rw old v
  | inl new ↦ elim (Option-cases s.boundary) [
    | inl off ↦ ground arith
    | inr (started, on) ↦
        let absent : contains e.id (delivered s.notifications) ≡ false =
          ground (arith, contains-any s.notifications e.id) in
        rw new (
          rw (delivered-snoc s.notifications _)
            (IsNodup-snoc (delivered s.notifications) e.id absent v))
  ]
]

pub remember-notifications :
    (k d : Text) (s t : Store) (a : UserAchievement) (o : GrantOutcome)
    (e : Option AchievementEvent) (r : Receipt)
    → remember k d s a o e ≡ ok (r, t)
    → t.notifications ≡ s.notifications
unfolding remember
remember-notifications k d s t a o e r h = ground arith

enqueue_all-IsUnique :
    (s : Store) (rows : List (UserAchievement × AchievementEvent))
    → IsUnique s
    → IsUnique (enqueue_all s rows).1
unfolding enqueue_all
enqueue_all-IsUnique s [] v = v
enqueue_all-IsUnique s (p ∷ rows) v =
    enqueue_all-IsUnique (enqueue s p.0 p.1) rows (enqueue-IsUnique s p.0 p.1 v)

pub repair_from-IsUnique :
    (s : Store) (limit : ℕ) (boundary : Option Time)
    → IsUnique s
    → IsUnique (repair_from s limit boundary).1
unfolding repair_from
repair_from-IsUnique s limit none v = v
repair_from-IsUnique s limit (some started) v =
    enqueue_all-IsUnique s (take limit (pairs_by_id (undelivered s started s.awards))) v

pub record_event-notifications :
    (s t : Store) (a b : UserAchievement) (e : AchievementEvent) (actor : Option User)
    → record_event s a e actor ≡ ok (b, t)
    → t.notifications ≡ s.notifications
record_event-notifications s t a b e actor h =
    ap (λ u. u.notifications) (record_event-same s t a b e actor h).1
