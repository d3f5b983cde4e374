-- ===== src/Achievements/Notifications/Delivery.antt =====
-- What `repair_delivery` of achievements/services/notifications.py leaves undelivered.
use ticket_sandbox.Prelude.{
  ℕ, ◌≤◌, ◌≡◌, ap, refl, ◌∙◌, Bool, true, ◌&&◌, List, [], ◌∷◌, ◌++◌, map, some, All, All-append,
  any, take-whole, keep, length, nat_beq, arith, Bool-cases, inl, inr, leb,
}
use ticket_sandbox.Achievements.Records.{
  Time, AchievementEvent, UserAchievement, AchievementNotification, Store, is_proof,
}
use ticket_sandbox.Achievements.Grants.{enqueue, is_enqueued}
use ticket_sandbox.Achievements.Notifications.InOrder.{
  pairs_by_id-All, All-pairs_by_id, length-pairs_by_id,
}
use ticket_sandbox.Achievements.Notifications.Repair.{
  lacks_delivery, undelivered, pairs_by_id, enqueue_all, repair_from, repair_delivery,
}

-- The event has a notification.
abbrev has_notification : Store → ℕ → Bool
has_notification s id = any (λ n. nat_beq n.event id) s.notifications

any-append :
    (p : AchievementNotification → Bool) (front back : List AchievementNotification)
    → any p front ≡ true
    → any p (front ++ back) ≡ true
any-append p [] back h = cc
any-append p (n ∷ front) back h = ground (arith, any-append p front back)

any-snoc :
    (p : AchievementNotification → Bool) (front : List AchievementNotification)
    (n : AchievementNotification)
    → p n ≡ true
    → any p (front ++ n ∷ []) ≡ true
any-snoc p [] n h = ground arith
any-snoc p (m ∷ front) n h = ground (arith, any-snoc p front n)

enqueue-keeps :
    (s : Store) (a : UserAchievement) (e : AchievementEvent) (id : ℕ)
    → has_notification s id ≡ true
    → has_notification (enqueue s a e) id ≡ true
unfolding enqueue
enqueue-keeps s a e id h = elim (Bool-cases (is_enqueued s e)) [
  | inl new ↦ rw new (any-append (λ n. nat_beq n.event id) s.notifications _ h)
  | inr old ↦ rw old h
]

enqueue_all-keeps :
    (s : Store) (rows : List (UserAchievement × AchievementEvent)) (id : ℕ)
    → has_notification s id ≡ true
    → has_notification (enqueue_all s rows).1 id ≡ true
unfolding enqueue_all
enqueue_all-keeps s [] id h = h
enqueue_all-keeps s (p ∷ rows) id h =
    enqueue_all-keeps (enqueue s p.0 p.1) rows id (enqueue-keeps s p.0 p.1 id h)

abbrev IsDue : Time → UserAchievement × AchievementEvent → Type 0
IsDue started p = (is_proof p.1 && leb started p.1.recorded_at) ≡ true

abbrev IsDelivered : Store → UserAchievement × AchievementEvent → Type 0
IsDelivered s p = has_notification s p.1.id ≡ true

enqueue-delivers :
    (s : Store) (started : Time) (p : UserAchievement × AchievementEvent)
    → s.boundary ≡ some started
    → IsDue started p
    → has_notification (enqueue s p.0 p.1) p.1.id ≡ true
unfolding enqueue is_enqueued
enqueue-delivers s started p b due = elim (Bool-cases (has_notification s p.1.id)) [
  | inl old ↦ enqueue-keeps s p.0 p.1 p.1.id old
  | inr new ↦
      let fresh : is_enqueued s p.1 ≡ true = ground arith in
      rw fresh (any-snoc (λ n. nat_beq n.event p.1.id) s.notifications _ (ground arith))
]

enqueue-boundary :
    (s : Store) (a : UserAchievement) (e : AchievementEvent) → (enqueue s a e).boundary ≡ s.boundary
unfolding enqueue
enqueue-boundary s a e = ground arith

enqueue_all-delivers :
    (s : Store) (started : Time) (rows : List (UserAchievement × AchievementEvent))
    → s.boundary ≡ some started
    → All (IsDue started) rows
    → All (IsDelivered (enqueue_all s rows).1) rows
unfolding enqueue_all
enqueue_all-delivers s started [] b due = tt
enqueue_all-delivers s started (p ∷ rows) b due = (
  enqueue_all-keeps (enqueue s p.0 p.1) rows p.1.id (enqueue-delivers s started p b due.0),
  enqueue_all-delivers (enqueue s p.0 p.1) started rows (enqueue-boundary s p.0 p.1 ∙ b) due.1,
)

pub enqueue_all-boundary :
    (s : Store) (rows : List (UserAchievement × AchievementEvent))
    → ((enqueue_all s rows).1.boundary ≡ s.boundary) × ((enqueue_all s rows).1.awards ≡ s.awards)
unfolding enqueue_all enqueue
enqueue_all-boundary s [] = (refl, refl)
enqueue_all-boundary s (p ∷ rows) =
    let (b, a) = enqueue_all-boundary (enqueue s p.0 p.1) rows in
    (b ∙ enqueue-boundary s p.0 p.1, a ∙ ground arith)

keep-IsDue :
    (s : Store) (started : Time) (a : UserAchievement) (es : List AchievementEvent)
    → All (IsDue started) (map (λ e. (a, e)) (keep (lacks_delivery s started) es))
unfolding lacks_delivery
keep-IsDue s started a [] = tt
keep-IsDue s started a (e ∷ es) = elim (Bool-cases (lacks_delivery s started e)) [
  | inl due ↦ rw due (ground arith, keep-IsDue s started a es)
  | inr done ↦ rw done (keep-IsDue s started a es)
]

undelivered-IsDue :
    (s : Store) (started : Time) (rows : List UserAchievement)
    → All (IsDue started) (undelivered s started rows)
unfolding undelivered
undelivered-IsDue s started [] = tt
undelivered-IsDue s started (a ∷ rows) =
    All-append (IsDue started) _ (undelivered s started rows) (keep-IsDue s started a a.events)
      (undelivered-IsDue s started rows)

-- The rows `t` come later than `s`: what has a notification keeps it.
keep-none :
    (s t : Store) (started : Time) (a : UserAchievement) (es : List AchievementEvent)
    → ((id : ℕ) → has_notification s id ≡ true → has_notification t id ≡ true)
    → All (IsDelivered t) (map (λ e. (a, e)) (keep (lacks_delivery s started) es))
    → keep (lacks_delivery t started) es ≡ []
unfolding lacks_delivery
keep-none s t started a [] later h = refl
keep-none s t started a (e ∷ es) later h = elim (Bool-cases (lacks_delivery s started e)) [
  | inl due ↦
      let all : All {A = UserAchievement × AchievementEvent} (IsDelivered t)
          ((a, e) ∷ map (λ e. (a, e)) (keep (lacks_delivery s started) es)) =
        rw due at h in
      let rest = keep-none s t started a es later all.1 in let here = all.0 in ground arith
  | inr done ↦
      let all : All {A = UserAchievement × AchievementEvent} (IsDelivered t)
          (map (λ e. (a, e)) (keep (lacks_delivery s started) es)) =
        rw done at h in
      let rest = keep-none s t started a es later all in
      let held = later e.id in
      elim (Bool-cases (has_notification s e.id)) [
        | inl old ↦ let new = held old in ground arith
        | inr none_yet ↦ ground arith
      ]
]

All-split {ℓ κ} :
    {A : Type ℓ} (P : A → Type κ) (front back : List A)
    → All P (front ++ back)
    → All P front × All P back
All-split P [] back h = (tt, h)
All-split P (x ∷ front) back h = let (f, b) = All-split P front back h.1 in ((h.0, f), b)

undelivered-none :
    (s t : Store) (started : Time) (rows : List UserAchievement)
    → ((id : ℕ) → has_notification s id ≡ true → has_notification t id ≡ true)
    → All (IsDelivered t) (undelivered s started rows)
    → undelivered t started rows ≡ []
unfolding undelivered
undelivered-none s t started [] later h = refl
undelivered-none s t started (a ∷ rows) later h =
    let (f, b) =
      All-split (IsDelivered t) (map (λ e. (a, e)) (keep (lacks_delivery s started) a.events))
        (undelivered s started rows) h in
    rw (keep-none s t started a a.events later f) (undelivered-none s t started rows later b)

repair_delivery-whole :
    (s : Store) (started : Time) (limit : ℕ)
    → s.boundary ≡ some started
    → length (undelivered s started s.awards) ≤ limit
    → repair_delivery s limit ≡ enqueue_all s (pairs_by_id (undelivered s started s.awards))
unfolding repair_delivery
repair_delivery-whole s started limit b fits =
    let rows = undelivered s started s.awards in
    let whole = take-whole limit (pairs_by_id rows) (ground (arith, length-pairs_by_id rows)) in
    ap (repair_from s limit) b ∙ ap (enqueue_all s) whole

repair_delivery-idle :
    (s : Store) (started : Time) (limit : ℕ)
    → s.boundary ≡ some started
    → undelivered s started s.awards ≡ []
    → repair_delivery s limit ≡ (0, s)
unfolding pairs_by_id enqueue_all
repair_delivery-idle s started limit b idle =
    let whole = repair_delivery-whole s started limit b (rw idle (omega arith)) in
    whole ∙ rw idle refl

-- The rows after all the missing notifications have been made.
module _ (s : Store) (started : Time) (b : s.boundary ≡ some started) where
  abbrev repaired : Store
  repaired = (enqueue_all s (pairs_by_id (undelivered s started s.awards))).1

  repaired-none : undelivered repaired started s.awards ≡ []
  repaired-none =
      undelivered-none s repaired started s.awards
        (enqueue_all-keeps s (pairs_by_id (undelivered s started s.awards)))
        (All-pairs_by_id (IsDelivered repaired) (undelivered s started s.awards) (
          enqueue_all-delivers s started (pairs_by_id (undelivered s started s.awards)) b (
            pairs_by_id-All (IsDue started) (undelivered s started s.awards)
              (undelivered-IsDue s started s.awards))))

-- With a limit that all the missing notifications fit into, a repair leaves none missing and no award
-- changed, and a repair after it makes nothing.
pub repair_delivery_complete :
    (s : Store) (started : Time) (limit again : ℕ)
    → s.boundary ≡ some started
    → length (undelivered s started s.awards) ≤ limit
    → let t = (repair_delivery s limit).1 in
      (undelivered t started t.awards ≡ [])
      × (t.awards ≡ s.awards)
      × (repair_delivery t again ≡ (0, t))
repair_delivery_complete s started limit again b fits =
    let whole = ap (λ r. r.1) (repair_delivery-whole s started limit b fits) in
    let rows = pairs_by_id (undelivered s started s.awards) in
    let (boundary, awards) = enqueue_all-boundary s rows in
    let nothing : undelivered (repaired s started b) started (repaired s started b).awards ≡ [] =
      rw awards (repaired-none s started b) in
    rw (whole) (
      nothing,
      awards,
      repair_delivery-idle (repaired s started b) started again (boundary ∙ b) nothing,
    )
