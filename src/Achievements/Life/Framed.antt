-- ===== src/Achievements/Life/Framed.antt =====
-- The rows of AchievementNotification under `revoke` and `flag_disputed` of achievements/services.
use ticket_sandbox.Prelude.{
  ◌≡◌, ap, ◌∙◌, not, ◌||◌, Bool, List, [], ◌∷◌, none, some, ok, >>=-eq-ok, arith, nat_eq,
  Bool-cases, Option-cases, inl, inr,
}
use ticket_sandbox.Prelude.Text.{Text, codes}
use ticket_sandbox.Prelude.Json.{Json}
use ticket_sandbox.Achievements.Catalog.{AchievementDefinition}
use ticket_sandbox.Achievements.Records.{
  Time, AchievementEvent, Store, UserAchievement, GrantOutcome, last_proof, find_award, is_manual,
  key_taken,
}
use ticket_sandbox.Achievements.Grants.{
  RevokeRequest, Receipt, remember, record_event, repeated, check_revision, staff_reason, lock_user,
  get_definition,
}
use ticket_sandbox.Achievements.Grants.Grant.{operation_key}
use ticket_sandbox.Achievements.Grants.Revoke.{
  revoke, revoke_new, withdraw, revoke_event, revoked_award, revoke_digest,
}
use ticket_sandbox.Achievements.Grants.Dispute.{
  Correction, is_concerned, is_affected, dispute_key, dispute_event, disputed_award,
  dispute_affected, dispute_due, dispute_proof, dispute_award, dispute_awards,
}
use ticket_sandbox.Achievements.Life.Delivered.{remember-notifications, record_event-notifications}

module _ (digest : Json → Text) where
  withdraw-notifications :
      (s t : Store) (q : RevokeRequest) (d : AchievementDefinition) (a : UserAchievement)
      (k h : Text) (now : Time) (r : Receipt)
      → withdraw digest s q d a k h now ≡ ok (r, t)
      → t.notifications ≡ s.notifications
  unfolding withdraw
  withdraw-notifications s t q d a k h now r returned = elim (Option-cases (last_proof a.events)) [
    | inl never ↦ ground arith
    | inr (last, found) ↦
        let e = revoke_event digest q d a last k s.next_event now in
        let (saved, h1, h2) =
          >>=-eq-ok (record_event s (revoked_award a now) e q.actor)
            (λ saved. remember k h saved.1 saved.0 GrantOutcome.revoked (some e)) (ground arith) in
        remember-notifications k h saved.1 t saved.0 GrantOutcome.revoked (some e) r h2
        ∙ record_event-notifications s saved.1 (revoked_award a now) saved.0 e q.actor h1
  ]

  revoke_new-notifications :
      (s t : Store) (q : RevokeRequest) (d : AchievementDefinition) (a : UserAchievement)
      (k h : Text) (now : Time) (r : Receipt)
      → revoke_new digest s q d a k h now ≡ ok (r, t)
      → t.notifications ≡ s.notifications
  unfolding revoke_new
  revoke_new-notifications s t q d a k h now r returned =
      let (checked, h1, h2) = >>=-eq-ok (check_revision q.expected_revision a) _ returned in
      elim (Option-cases a.active_tier) [
        | inl idle ↦ remember-notifications k h s t a GrantOutcome.no_op none r (ground arith)
        | inr (tier, active) ↦ withdraw-notifications s t q d a k h now r (ground arith)
      ]

  pub revoke-notifications :
      (s t : Store) (q : RevokeRequest) (now : Time) (r : Receipt)
      → revoke digest s q now ≡ ok (r, t)
      → t.notifications ≡ s.notifications
  unfolding revoke
  revoke-notifications s t q now r h =
      let (u0, staff, h0) = >>=-eq-ok (staff_reason q.actor q.reason) _ h in
      let (u1, locked, h1) = >>=-eq-ok (lock_user s q.user_id) _ h0 in
      let (d, defined, h2) = >>=-eq-ok (get_definition s q.definition_id) _ h1 in
      let (key, keyed, h3) =
        >>=-eq-ok (operation_key digest q.user_id q.definition_id (codes "revoke") q.operation_id) _
          h2 in
      let (repeat, checked, h4) =
        >>=-eq-ok (repeated key (revoke_digest digest q.actor q.reason) s) _ h3 in
      elim (Option-cases repeat) [
        | inr (old, found) ↦ ground arith
        | inl new ↦ elim (Option-cases (find_award q.user_id q.definition_id s.awards)) [
          | inl missing ↦ ground arith
          | inr (a, found) ↦
              revoke_new-notifications s t q d a key (revoke_digest digest q.actor q.reason) now r
                (ground arith)
        ]
      ]

  dispute_affected-notifications :
      (s t : Store) (c : Correction) (a : UserAchievement) (proof : AchievementEvent) (now : Time)
      (affected : Bool)
      → dispute_affected digest s c a proof now affected ≡ ok t
      → t.notifications ≡ s.notifications
  unfolding dispute_affected
  dispute_affected-notifications s t c a proof now affected h =
      let e = dispute_event digest c a proof (dispute_key digest c a) s.next_event now in
      elim (Bool-cases (not affected || key_taken (dispute_key digest c a) s.awards)) [
        | inl skipped ↦ ground arith
        | inr due ↦
            let (saved, h2, h3) =
              >>=-eq-ok (record_event s (disputed_award a now) e none) (λ saved. ok saved.1)
                {out = t} (ground arith) in
            let kept =
              record_event-notifications s saved.1 (disputed_award a now) saved.0 e none h2 in
            let same : t ≡ saved.1 = ground arith in ap (λ u. u.notifications) same ∙ kept
      ]

  dispute_due-notifications :
      (s t : Store) (c : Correction) (a : UserAchievement) (proof : AchievementEvent) (now : Time)
      (d : AchievementDefinition)
      → dispute_due digest s c a proof now d ≡ ok t
      → t.notifications ≡ s.notifications
  unfolding dispute_due
  dispute_due-notifications s t c a proof now d h =
      let (affected, _, h1) = >>=-eq-ok (is_affected c d proof) _ h in
      dispute_affected-notifications s t c a proof now affected h1

  dispute_award-notifications :
      (s t : Store) (c : Correction) (a : UserAchievement) (now : Time)
      → dispute_award digest s c a now ≡ ok t
      → t.notifications ≡ s.notifications
  unfolding dispute_award dispute_proof
  dispute_award-notifications s t c a now h = elim (Bool-cases (is_concerned c a)) [
    | inr other ↦ ground arith
    | inl concerned ↦ elim (Option-cases (last_proof a.events)) [
      | inl never ↦ ground arith
      | inr (proof, found) ↦ elim (Bool-cases (is_manual proof.source_type)) [
        | inl manual ↦ ground arith
        | inr automatic ↦
            let (d, defined, h1) =
              >>=-eq-ok (get_definition s a.definition) (dispute_due digest s c a proof now)
                (ground arith) in
            dispute_due-notifications s t c a proof now d h1
      ]
    ]
  ]

  pub dispute_awards-notifications :
      (s t : Store) (c : Correction) (rows : List UserAchievement) (now : Time)
      → dispute_awards digest s c rows now ≡ ok t
      → t.notifications ≡ s.notifications
  unfolding dispute_awards
  dispute_awards-notifications s t c [] now h = ground arith
  dispute_awards-notifications s t c (a ∷ rows) now h =
      let (u, h1, h2) = >>=-eq-ok (dispute_award digest s c a now) _ h in
      dispute_awards-notifications u t c rows now h2 ∙ dispute_award-notifications s u c a now h1
