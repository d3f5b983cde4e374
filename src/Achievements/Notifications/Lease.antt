-- ===== src/Achievements/Notifications/Lease.antt =====
-- `claim` and `acknowledge` of achievements/services/notifications.py, one call after another.
use ticket_sandbox.Prelude.{
  ℕ, ◌≡◌, refl, Bool, true, false, not, ◌&&◌, List, [], ◌∷◌, map, some, ok, >>=-eq-ok, raise_if,
  find, find-passes, keep, nat_beq, nat_eq, arith, Bool-cases, Option-cases, inl, inr,
}
use ticket_sandbox.Prelude.Sets.{contains, IsNodup}
use ticket_sandbox.Prelude.Text.{Text}
use ticket_sandbox.Achievements.Records.{Time, AchievementNotification, Store}
use ticket_sandbox.Achievements.Grants.{lock_user}
use ticket_sandbox.Achievements.Notifications.{
  is_owned, owned, is_visible, is_read, is_holder, is_leased, put_notification, get_owned,
  leased_to, lease_to, claim, Claimed, Item, item,
}

-- The events that have a notification.
abbrev pub delivered : List AchievementNotification → List ℕ
delivered rows = map (λ n. n.event) rows

abbrev is_about : ℕ → AchievementNotification → Bool
is_about event n = nat_beq n.event event

is_owned-same :
    (s : Store) (user : ℕ) (n m : AchievementNotification)
    → m.event ≡ n.event
    → m.user_id ≡ n.user_id
    → is_owned s user m ≡ is_owned s user n
unfolding is_owned
is_owned-same s user n m e u = cc

find-delivered :
    (p : AchievementNotification → Bool) (event : ℕ) (rows : List AchievementNotification)
    (n : AchievementNotification)
    → find (is_about event) (keep p rows) ≡ some n
    → contains event (delivered rows) ≡ true
unfolding contains
find-delivered p event [] n h = cc
find-delivered p event (m ∷ rows) n h = elim (Bool-cases (p m)) [
  | inl here ↦ elim (Bool-cases (is_about event m)) [
    | inl found ↦ ground arith
    | inr other ↦ ground (arith, find-delivered p event rows n)
  ]
  | inr there ↦ ground (arith, find-delivered p event rows n)
]

-- A row that was found and saved is found again.
find-put :
    (p : AchievementNotification → Bool) (event : ℕ) (rows : List AchievementNotification)
    (n m : AchievementNotification)
    → find (is_about event) (keep p rows) ≡ some n
    → m.event ≡ n.event
    → p m ≡ p n
    → IsNodup (delivered rows)
    → find (is_about event) (keep p (put_notification m rows)) ≡ some m
unfolding put_notification
find-put p event [] n m h e q v = cc
find-put p event (r ∷ rows) n m h e q v =
    let about = find-passes (is_about event) (keep p (r ∷ rows)) h in
    elim (Bool-cases (nat_beq r.event m.event)) [
      | inl here ↦ elim (Bool-cases (p r)) [
        | inl kept ↦ ground arith
        | inr dropped ↦ ground (arith, find-delivered p event rows n)
      ]
      | inr there ↦ elim (Bool-cases (p r)) [
        | inl kept ↦ ground (arith, find-put p event rows n m)
        | inr dropped ↦ ground (arith, find-put p event rows n m)
      ]
    ]

module _ (s : Store) (user event : ℕ) where
  pub get_owned-event :
      (n : AchievementNotification) → get_owned s user event ≡ ok n → nat_beq n.event event ≡ true
  unfolding get_owned
  get_owned-event n h = elim (Option-cases (find (is_about event) (owned s user))) [
    | inl missing ↦ ground arith
    | inr (m, found) ↦
        let same : m ≡ n = ground arith in
        rw (← same) (find-passes (is_about event) (owned s user) found)
  ]

  pub get_owned-put :
      (n m : AchievementNotification)
      → get_owned s user event ≡ ok n
      → m.event ≡ n.event
      → m.user_id ≡ n.user_id
      → IsNodup (delivered s.notifications)
      → get_owned (record s { notifications = put_notification m s.notifications }) user event
        ≡ ok m
  unfolding get_owned owned is_owned
  get_owned-put n m h e u v = elim (Option-cases (find (is_about event) (owned s user))) [
    | inl missing ↦ ground arith
    | inr (k, found) ↦
        let same : k ≡ n = ground arith in
        rw
          (find-put (is_owned s user) event s.notifications n m (rw (← same) found) e
            (is_owned-same s user n m e u) v)
          refl
  ]

-- What a claim that returns has found and done.
pub data ClaimedBy (s : Store) (user event : ℕ) (token : Text) (now : Time) (c : Claimed)
    (t : Store) : Type 0 where
  was_read :
      (n : AchievementNotification)
      → get_owned s user event ≡ ok n
      → is_read n ≡ true
      → c ≡ Claimed.already_read event
      → t ≡ s
      → ClaimedBy s user event token now c t
  now_leased :
      (n : AchievementNotification) (i : Item)
      → lock_user s user ≡ ok tt
      → get_owned s user event ≡ ok n
      → is_read n ≡ false
      → is_visible s n ≡ true
      → not (is_holder n.claim_token token) && is_leased n now ≡ false
      → c ≡ Claimed.leased i token
      → t ≡ record s { notifications = put_notification (leased_to n token now) s.notifications }
      → ClaimedBy s user event token now c t

pub claim-ClaimedBy :
    (s t : Store) (user event : ℕ) (token : Text) (now : Time) (c : Claimed)
    → claim s user event token now ≡ ok (c, t)
    → ClaimedBy s user event token now c t
unfolding claim lease_to
claim-ClaimedBy s t user event token now c h =
    let (u, locked, h1) = >>=-eq-ok (lock_user s user) _ h in
    let (n, got, h2) = >>=-eq-ok (get_owned s user event) _ h1 in
    elim (Bool-cases (is_read n)) [
      | inl read ↦ ClaimedBy.was_read n got read (ground arith) (ground arith)
      | inr new ↦
          let leased : lease_to s n token now ≡ ok (c, t) = ground arith in
          let (v, visible, h3) = >>=-eq-ok (raise_if (not (is_visible s n)) _) _ leased in
          let (w, free, h4) =
            >>=-eq-ok (raise_if (not (is_holder n.claim_token token) && is_leased n now) _) _ h3 in
          let (i, shown, h5) = >>=-eq-ok (item s (leased_to n token now)) _ h4 in
          ClaimedBy.now_leased n i locked got new (ground arith) (ground arith) (ground arith)
            (ground arith)
    ]
