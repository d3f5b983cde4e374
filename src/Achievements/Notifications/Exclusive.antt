-- ===== src/Achievements/Notifications/Exclusive.antt =====
-- `claim` and `acknowledge` of achievements/services/notifications.py, when others try as well.
use ticket_sandbox.Prelude.{
  ℕ, ◌+◌, ◌<◌, ◌≡◌, ap, refl, true, false, not, ◌&&◌, none, some, ok, raised, >>=-eq-ok, nat_eq,
  arith, Bool-cases, Option-cases, inl, inr,
}
use ticket_sandbox.Prelude.Sets.{IsNodup}
use ticket_sandbox.Prelude.Text.{Text, text_beq, text_beq_iff}
use ticket_sandbox.Achievements.Errors.{AchievementError}
use ticket_sandbox.Achievements.Records.{Time, AchievementNotification, Store}
use ticket_sandbox.Achievements.Grants.{lock_user}
use ticket_sandbox.Achievements.Notifications.{
  is_visible, is_read, is_holder, is_leased, put_notification, get_owned, leased_to, read_by,
  lease_to, claim, acknowledge, acknowledge_owned, Claimed, Item, lease_seconds,
}
use ticket_sandbox.Achievements.Notifications.Lease.{
  delivered, get_owned-put, ClaimedBy, claim-ClaimedBy,
}

claim-held :
    (t : Store) (user event : ℕ) (y : Text) (later : Time) (n : AchievementNotification)
    → lock_user t user ≡ ok tt
    → get_owned t user event ≡ ok n
    → is_read n ≡ false
    → is_visible t n ≡ true
    → not (is_holder n.claim_token y) && is_leased n later ≡ true
    → claim t user event y later ≡ raised AchievementError.already_claimed
unfolding claim lease_to
claim-held t user event y later n locked got new visible held = ground arith

acknowledge-other :
    (t : Store) (user event : ℕ) (y : Text) (at : Time) (n : AchievementNotification)
    → get_owned t user event ≡ ok n
    → n.read_at ≡ none
    → is_holder n.claim_token y ≡ false
    → acknowledge t user event y at ≡ raised AchievementError.claim_required
unfolding acknowledge acknowledge_owned
acknowledge-other t user event y at n got new other = ground arith

acknowledge-holder :
    (t : Store) (user event : ℕ) (y : Text) (at : Time) (n : AchievementNotification)
    → get_owned t user event ≡ ok n
    → n.read_at ≡ none
    → is_holder n.claim_token y ≡ true
    → acknowledge t user event y at
      ≡ ok (at, record t { notifications = put_notification (read_by n at) t.notifications })
unfolding acknowledge acknowledge_owned
acknowledge-holder t user event y at n got new holder = ground arith

not_read : (n : AchievementNotification) → is_read n ≡ false → n.read_at ≡ none
not_read n h = elim (Option-cases n.read_at) [ inl new ↦ new | inr (w, read) ↦ ground arith ]

-- A claim leaves a lease for its token: until the lease ends a claim with another token raises, and at
-- any time an acknowledgement with another token raises and one with the claim's own returns. No two
-- notifications are about one event.
pub claim-excludes :
    (s t : Store) (user event : ℕ) (x y : Text) (now later at : Time) (i : Item) (z : Text)
    → claim s user event x now ≡ ok (Claimed.leased i z, t)
    → IsNodup (delivered s.notifications)
    → text_beq x y ≡ false
    → later < now + lease_seconds
    → (claim t user event y later ≡ raised AchievementError.already_claimed)
      × (acknowledge t user event y at ≡ raised AchievementError.claim_required)
      × ((u : Store) × (acknowledge t user event x at ≡ ok (at, u)))
unfolding lock_user is_visible
claim-excludes s t user event x y now later at i z h v other before =
    elim (claim-ClaimedBy s t user event x now (Claimed.leased i z) h) [
      | ClaimedBy.was_read n got read c same ↦ cc
      | ClaimedBy.now_leased n j locked got new visible free c same ↦
          let m = leased_to n x now in
          let again : get_owned t user event ≡ ok m =
            rw same (get_owned-put s user event n m got refl refl v) in
          let unread = not_read n new in
          (
            claim-held t user event y later m (rw same locked) again new (rw same visible)
                (ground arith),
            acknowledge-other t user event y at m again unread other,
            (_, acknowledge-holder t user event x at m again unread ((text_beq_iff x x).1 refl)),
          )
    ]

claim-read :
    (t : Store) (user event : ℕ) (y : Text) (later : Time) (n : AchievementNotification)
    → lock_user t user ≡ ok tt
    → get_owned t user event ≡ ok n
    → is_read n ≡ true
    → claim t user event y later ≡ ok (Claimed.already_read event, t)
unfolding claim
claim-read t user event y later n locked got read = ground arith

acknowledge-read :
    (t : Store) (user event : ℕ) (y : Text) (later w : Time) (n : AchievementNotification)
    → get_owned t user event ≡ ok n
    → n.read_at ≡ some w
    → acknowledge t user event y later ≡ ok (w, t)
unfolding acknowledge acknowledge_owned
acknowledge-read t user event y later w n got read = ground arith

-- What an acknowledgement leaves: the notification, read at the time of the answer.
acknowledged :
    (s t : Store) (user event : ℕ) (x : Text) (now w : Time)
    → acknowledge s user event x now ≡ ok (w, t)
    → IsNodup (delivered s.notifications)
    → (n : AchievementNotification) × (get_owned t user event ≡ ok n)
      × (n.read_at ≡ some w)
      × (t.users ≡ s.users)
unfolding acknowledge acknowledge_owned
acknowledged s t user event x now w h v =
    let (n, got, h1) = >>=-eq-ok (get_owned s user event) _ h in
    elim (Option-cases n.read_at) [
      | inl unread ↦ elim (Bool-cases (is_holder n.claim_token x)) [
        | inl holder ↦
            let same : t
                ≡ record s { notifications = put_notification (read_by n now) s.notifications } =
              ground arith in
            let again = get_owned-put s user event n (read_by n now) got refl refl v in
            let at_once : now ≡ w = ground arith in
            (read_by n now, rw same again, ap some at_once, rw same refl)
        | inr other ↦ ground arith
      ]
      | inr (r, read) ↦
          let same : s ≡ t = ground arith in (n, rw (← same) got, ground arith, rw (← same) refl)
    ]

-- After an acknowledgement every later one, with any token, returns the time of the first, and every
-- claim returns that the notification is read; neither changes a row. The user exists, and no two
-- notifications are about one event.
pub acknowledge-IsFinal :
    (s t : Store) (user event : ℕ) (x y : Text) (now w later : Time)
    → acknowledge s user event x now ≡ ok (w, t)
    → IsNodup (delivered s.notifications)
    → lock_user s user ≡ ok tt
    → (claim t user event y later ≡ ok (Claimed.already_read event, t))
      × (acknowledge t user event y later ≡ ok (w, t))
unfolding lock_user
acknowledge-IsFinal s t user event x y now w later h v locked =
    let (n, got, read, users) = acknowledged s t user event x now w h v in
    (
      claim-read t user event y later n (rw users locked) got (ground arith),
      acknowledge-read t user event y later w n got read,
    )
