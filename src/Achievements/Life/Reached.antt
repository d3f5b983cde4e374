-- ===== src/Achievements/Life/Reached.antt =====
-- The awards and the notifications that the calls of achievements/services leave.
use ticket_sandbox.Prelude.{
  ℕ, ◌≡◌, ◌⊎◌, refl, sym, ap, ◌∙◌, Option, none, some, ok, All, take, >>=-eq-ok, arith, Bool-cases,
  Option-cases, inl, inr,
}
use ticket_sandbox.Prelude.Text.{Text}
use ticket_sandbox.Prelude.Json.{Json}
use ticket_sandbox.Achievements.Records.{Time, Store, AchievementNotification}
use ticket_sandbox.Achievements.Grants.Log.{IsLogged}
use ticket_sandbox.Achievements.Grants.Kept.{grant-IsLogged}
use ticket_sandbox.Achievements.Grants.Withdrawn.{revoke-IsLogged}
use ticket_sandbox.Achievements.Grants.Corrected.{flag_disputed-IsLogged}
use ticket_sandbox.Achievements.Notifications.{
  Claimed, claim, acknowledge, acknowledge_owned, get_owned, is_holder, put_notification, read_by,
}
use ticket_sandbox.Achievements.Notifications.Repair.{
  repair_delivery, repair_from, pairs_by_id, undelivered,
}
use ticket_sandbox.Achievements.Notifications.Lease.{ClaimedBy, claim-ClaimedBy}
use ticket_sandbox.Achievements.Notifications.Delivery.{enqueue_all-boundary}
use ticket_sandbox.Achievements.Life.{
  Step, granted, withdrawn, corrected, claimed, acknowledged, repaired, Steps, no_call, next,
}

claim-awards :
    (s t : Store) (user event : ℕ) (token : Text) (now : Time) (c : Claimed)
    → claim s user event token now ≡ ok (c, t)
    → t.awards ≡ s.awards
claim-awards s t user event token now c h = elim (claim-ClaimedBy s t user event token now c h) [
  | ClaimedBy.was_read n got read d same ↦ ap (λ u. u.awards) same
  | ClaimedBy.now_leased n i locked got new visible free d same ↦ ap (λ u. u.awards) same
]

-- An acknowledgement saves one notification, or nothing.
pub acknowledge-cases :
    (s t : Store) (user event : ℕ) (token : Text) (now w : Time)
    → acknowledge s user event token now ≡ ok (w, t)
    → (t ≡ s)
      ⊎ ((n : AchievementNotification) × (t
            ≡ record s { notifications = put_notification (read_by n now) s.notifications }))
unfolding acknowledge acknowledge_owned
acknowledge-cases s t user event token now w h =
    let (n, got, h1) = >>=-eq-ok (get_owned s user event) _ h in
    elim (Option-cases n.read_at) [
      | inl unread ↦ elim (Bool-cases (is_holder n.claim_token token)) [
        | inl holder ↦ inr (n, ground arith)
        | inr other ↦ ground arith
      ]
      | inr (r, read) ↦ inl (ground arith)
    ]

acknowledge-awards :
    (s t : Store) (user event : ℕ) (token : Text) (now w : Time)
    → acknowledge s user event token now ≡ ok (w, t)
    → t.awards ≡ s.awards
acknowledge-awards s t user event token now w h =
    elim (acknowledge-cases s t user event token now w h) [
      | inl same ↦ ap (λ u. u.awards) same
      | inr (n, same) ↦ ap (λ u. u.awards) same
    ]

repair_from-awards :
    (s : Store) (limit : ℕ) (boundary : Option Time)
    → (repair_from s limit boundary).1.awards ≡ s.awards
unfolding repair_from
repair_from-awards s limit none = refl
repair_from-awards s limit (some started) =
    (enqueue_all-boundary s (take limit (pairs_by_id (undelivered s started s.awards)))).1

repair_delivery-awards :
    (s t : Store) (limit made : ℕ) → repair_delivery s limit ≡ (made, t) → t.awards ≡ s.awards
unfolding repair_delivery
repair_delivery-awards s t limit made h =
    sym (ap (λ r. r.1.awards) h) ∙ repair_from-awards s limit s.boundary

module _ (digest : Json → Text) where
  pub Step-IsLogged :
      (s t : Store) → Step digest s t → All IsLogged s.awards → All IsLogged t.awards
  Step-IsLogged s t (granted q now r h) v = grant-IsLogged digest s t q now r h v
  Step-IsLogged s t (withdrawn q now r h) v = revoke-IsLogged digest s t q now r h v
  Step-IsLogged s t (corrected c now h) v = flag_disputed-IsLogged digest s t c now h v
  Step-IsLogged s t (claimed user event token now c h) v =
      rw (claim-awards s t user event token now c h) v
  Step-IsLogged s t (acknowledged user event token now w h) v =
      rw (acknowledge-awards s t user event token now w h) v
  Step-IsLogged s t (repaired limit made h) v = rw (repair_delivery-awards s t limit made h) v

  -- After any calls that return, from tables whose awards are logged, every award is what the log of
  -- its events makes of it, event by event: a grant comes when there is no tier, an upgrade names a
  -- tier of a higher rank, a revocation and a dispute come when there is a tier, and each names the
  -- tier that it found.
  pub Steps-IsLogged :
      (s t : Store) → Steps digest s t → All IsLogged s.awards → All IsLogged t.awards
  Steps-IsLogged s t no_call v = v
  Steps-IsLogged s u (next {t = t} before step) v =
      Step-IsLogged t u step (Steps-IsLogged s t before v)
