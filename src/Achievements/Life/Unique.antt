-- ===== src/Achievements/Life/Unique.antt =====
-- The notifications that the calls of achievements/services leave: one for an event at most.
use ticket_sandbox.Prelude.{
  ◌+◌, ◌≡◌, sym, ap, not, ◌&&◌, none, some, ok, >>=-eq-ok, arith, nat_eq, Bool-cases, Option-cases,
  inl, inr, max,
}
use ticket_sandbox.Prelude.Text.{Text, codes}
use ticket_sandbox.Prelude.Json.{Json}
use ticket_sandbox.Achievements.Catalog.{AchievementTier}
use ticket_sandbox.Achievements.Records.{
  Time, Store, UserAchievement, GrantOutcome, put_award, get_or_new, is_manual,
}
use ticket_sandbox.Achievements.Grants.{
  GrantRequest, Receipt, record_event, repeated, enqueue, check_revision, is_no_higher,
  grant_outcome, lock_user,
}
use ticket_sandbox.Achievements.Grants.Grant.{
  grant, grant_new, raise_award, raised_award, grant_event, admit_grant, operation_key,
  grant_digest,
}
use ticket_sandbox.Achievements.Grants.Dispute.{flag_disputed}
use ticket_sandbox.Achievements.Notifications.{leased_to, read_by}
use ticket_sandbox.Achievements.Notifications.Repair.{repair_delivery}
use ticket_sandbox.Achievements.Notifications.Lease.{ClaimedBy, claim-ClaimedBy}
use ticket_sandbox.Achievements.Life.{
  Step, granted, withdrawn, corrected, claimed, acknowledged, repaired, Steps, no_call, next,
}
use ticket_sandbox.Achievements.Life.Reached.{acknowledge-cases}
use ticket_sandbox.Achievements.Life.Delivered.{
  IsUnique, delivered-put, enqueue-IsUnique, remember-notifications, repair_from-IsUnique,
  record_event-notifications,
}
use ticket_sandbox.Achievements.Life.Framed.{revoke-notifications, dispute_awards-notifications}

module _ (digest : Json → Text) where
  raise_award-IsUnique :
      (s t : Store) (q : GrantRequest) (tier : AchievementTier) (a : UserAchievement) (k d : Text)
      (now : Time) (r : Receipt)
      → raise_award digest s q tier a k d now ≡ ok (r, t)
      → IsUnique s
      → IsUnique t
  unfolding raise_award
  raise_award-IsUnique s t q tier a k d now r h v =
      let e = grant_event digest q tier a k s.next_event now in
      let (saved, h1, h2) = >>=-eq-ok (record_event s (raised_award a tier now) e q.actor) _ h in
      let kept =
        record_event-notifications s saved.1 (raised_award a tier now) saved.0 e q.actor h1 in
      let made =
        remember-notifications k d (enqueue saved.1 saved.0 e) t saved.0
          (grant_outcome a.active_tier) (some e) r h2 in
      rw (made) (enqueue-IsUnique saved.1 saved.0 e (rw (kept) v))

  grant_new-IsUnique :
      (s t : Store) (q : GrantRequest) (tier : AchievementTier) (a : UserAchievement) (k d : Text)
      (now : Time) (r : Receipt)
      → grant_new digest s q tier a k d now ≡ ok (r, t)
      → IsUnique s
      → IsUnique t
  unfolding grant_new
  grant_new-IsUnique s t q tier a k d now r h v =
      let u = record s {
        awards = put_award a s.awards;
        next_award = max s.next_award (a.id + 1);
      } in
      let (checked, h1, h2) = >>=-eq-ok (check_revision q.expected_revision a) _ h in
      elim (Bool-cases (not (is_manual q.source_type) && a.auto_grant_blocked)) [
        | inl blocked ↦
            rw (remember-notifications k d u t a GrantOutcome.suppressed none r (ground arith)) v
        | inr free ↦ elim (Bool-cases (is_no_higher tier a.active_tier)) [
          | inl low ↦
              rw (remember-notifications k d u t a GrantOutcome.no_op none r (ground arith)) v
          | inr high ↦ raise_award-IsUnique u t q tier a k d now r (ground arith) v
        ]
      ]

  grant-IsUnique :
      (s t : Store) (q : GrantRequest) (now : Time) (r : Receipt)
      → grant digest s q now ≡ ok (r, t)
      → IsUnique s
      → IsUnique t
  unfolding grant
  grant-IsUnique s t q now r h v =
      let (tier, h0, h1) = >>=-eq-ok (admit_grant s q now) _ h in
      let (key, h2, h3) =
        >>=-eq-ok (operation_key digest q.user_id q.definition_id (codes "grant") q.operation_id) _
          h1 in
      let (repeat, h4, h5) = >>=-eq-ok (repeated key (grant_digest digest tier q) s) _ h3 in
      elim (Option-cases repeat) [
        | inl new ↦
            grant_new-IsUnique s t q tier (get_or_new s q.user_id q.definition_id) key
              (grant_digest digest tier q) now r (ground arith) v
        | inr (old, found) ↦ let same : t ≡ s = ground arith in rw same v
      ]

  Step-IsUnique : (s t : Store) → Step digest s t → IsUnique s → IsUnique t
  unfolding flag_disputed repair_delivery
  Step-IsUnique s t (granted q now r h) v = grant-IsUnique s t q now r h v
  Step-IsUnique s t (withdrawn q now r h) v = rw (revoke-notifications digest s t q now r h) v
  Step-IsUnique s t (corrected c now h) v =
      let (u, locked, h1) = >>=-eq-ok (lock_user s c.user_id) _ h in
      rw (dispute_awards-notifications digest s t c s.awards now h1) v
  Step-IsUnique s t (claimed user event token now c h) v =
      elim (claim-ClaimedBy s t user event token now c h) [
        | ClaimedBy.was_read n got read d same ↦ rw same v
        | ClaimedBy.now_leased n i locked got new visible free d same ↦
            rw same (rw (delivered-put (leased_to n token now) s.notifications) v)
      ]
  Step-IsUnique s t (acknowledged user event token now w h) v =
      elim (acknowledge-cases s t user event token now w h) [
        | inl same ↦ rw same v
        | inr (n, same) ↦ rw same (rw (delivered-put (read_by n now) s.notifications) v)
      ]
  Step-IsUnique s t (repaired limit made h) v =
      let same = sym (ap (λ r. r.1) h) in rw same (repair_from-IsUnique s limit s.boundary v)

  -- After any calls that return no two notifications are about one event, when none were before.
  pub Steps-IsUnique : (s t : Store) → Steps digest s t → IsUnique s → IsUnique t
  Steps-IsUnique s t no_call v = v
  Steps-IsUnique s u (next {t = t} before step) v =
      Step-IsUnique t u step (Steps-IsUnique s t before v)
