-- ===== src/Achievements/Grants/Withdrawn.antt =====
-- `revoke` of achievements/services/grants.py case by case.
use ticket_sandbox.Prelude.{
  ℕ, ◌≡◌, ◌⊎◌, refl, ap, ◌∙◌, none, some, ok, >>=-eq-ok, arith, Option-cases, inl, inr, All,
  find-All,
}
use ticket_sandbox.Prelude.Text.{Text, codes}
use ticket_sandbox.Prelude.Json.{Json}
use ticket_sandbox.Achievements.Catalog.{AchievementDefinition, AchievementTier}
use ticket_sandbox.Achievements.Records.{
  Time, AchievementEvent, UserAchievement, GrantOutcome, Store, find_award, put_award, last_proof,
  is_award,
}
use ticket_sandbox.Achievements.Grants.{
  RevokeRequest, Receipt, repeated, record_event, check_revision, get_definition, staff_reason,
  lock_user, remember,
}
use ticket_sandbox.Achievements.Grants.Grant.{operation_key}
use ticket_sandbox.Achievements.Grants.Revoke.{
  revoke, revoke_new, withdraw, revoke_event, revoked_award, revoke_digest,
}
use ticket_sandbox.Achievements.Grants.Again.{repeated-duplicate}
use ticket_sandbox.Achievements.Grants.Cases.{with_event, record_event-awards, remember-awards}
use ticket_sandbox.Achievements.Grants.Log.{
  IsLogged, follows, apply_event, extended-IsLogged, put_award-All, same_tier_refl,
}

-- What a revocation with a new key does to the award `a`.
pub data Withdrawn (digest : Json → Text) (q : RevokeRequest) (s : Store) (a : UserAchievement)
    (r : Receipt) (t : Store) : Type 0 where
  nothing :
      a.active_tier ≡ none
      → r.outcome ≡ GrantOutcome.no_op
      → r.award ≡ a
      → t.awards ≡ s.awards
      → Withdrawn digest q s a r t
  taken_back :
      (tier : AchievementTier) (definition : AchievementDefinition) (last : AchievementEvent)
      (key : Text) (id : ℕ) (now : Time) (e : AchievementEvent)
      → e ≡ revoke_event digest q definition a last key id now
      → a.active_tier ≡ some tier
      → last_proof a.events ≡ some last
      → r.outcome ≡ GrantOutcome.revoked
      → r.award ≡ with_event (revoked_award a now) e
      → t.awards ≡ put_award (with_event (revoked_award a now) e) s.awards
      → Withdrawn digest q s a r t

module _ (digest : Json → Text) where
  withdraw-Withdrawn :
      (s t : Store) (q : RevokeRequest) (d : AchievementDefinition) (a : UserAchievement)
      (tier : AchievementTier) (k h : Text) (now : Time) (r : Receipt)
      → a.active_tier ≡ some tier
      → withdraw digest s q d a k h now ≡ ok (r, t)
      → Withdrawn digest q s a r t
  unfolding withdraw
  withdraw-Withdrawn s t q d a tier k h now r active returned =
      elim (Option-cases (last_proof a.events)) [
        | inl never ↦ ground arith
        | inr (last, found) ↦
            let e = revoke_event digest q d a last k s.next_event now in
            let (saved, h1, h2) =
              >>=-eq-ok (record_event s (revoked_award a now) e q.actor)
                (λ saved. remember k h saved.1 saved.0 GrantOutcome.revoked (some e))
                (ground arith) in
            let (award, rows) =
              record_event-awards s saved.1 (revoked_award a now) saved.0 e q.actor h1 in
            let (same, held, outcome, event) =
              remember-awards k h saved.1 t saved.0 GrantOutcome.revoked (some e) r h2 in
            Withdrawn.taken_back tier d last k s.next_event now e refl active found outcome
              (held ∙ award) (same ∙ rows)
      ]

  revoke_new-Withdrawn :
      (s t : Store) (q : RevokeRequest) (d : AchievementDefinition) (a : UserAchievement)
      (k h : Text) (now : Time) (r : Receipt)
      → revoke_new digest s q d a k h now ≡ ok (r, t)
      → Withdrawn digest q s a r t
  unfolding revoke_new
  revoke_new-Withdrawn s t q d a k h now r returned =
      let (checked, h1, h2) = >>=-eq-ok (check_revision q.expected_revision a) _ returned in
      elim (Option-cases a.active_tier) [
        | inl idle ↦
            let (same, held, outcome, event) =
              remember-awards k h s t a GrantOutcome.no_op none r (ground arith) in
            Withdrawn.nothing idle outcome held same
        | inr (tier, active) ↦ withdraw-Withdrawn s t q d a tier k h now r active (ground arith)
      ]

  -- A call is the repetition of an earlier one, or is about the award of its user and definition.
  pub revoke-cases :
      (s t : Store) (q : RevokeRequest) (now : Time) (r : Receipt)
      → revoke digest s q now ≡ ok (r, t)
      → ((t ≡ s) × (r.outcome ≡ GrantOutcome.duplicate))
        ⊎ ((a : UserAchievement) × (find_award q.user_id q.definition_id s.awards ≡ some a)
            × Withdrawn digest q s a r t)
  unfolding revoke
  revoke-cases s t q now r h =
      let (u0, staff, h0) = >>=-eq-ok (staff_reason q.actor q.reason) _ h in
      let (u1, locked, h1) = >>=-eq-ok (lock_user s q.user_id) _ h0 in
      let (d, defined, h2) = >>=-eq-ok (get_definition s q.definition_id) _ h1 in
      let (key, keyed, h3) =
        >>=-eq-ok (operation_key digest q.user_id q.definition_id (codes "revoke") q.operation_id) _
          h2 in
      let (repeat, checked, h4) =
        >>=-eq-ok (repeated key (revoke_digest digest q.actor q.reason) s) _ h3 in
      elim (Option-cases repeat) [
        | inl new ↦ elim (Option-cases (find_award q.user_id q.definition_id s.awards)) [
          | inl missing ↦ ground arith
          | inr (a, found) ↦ inr (
            a,
            found,
            revoke_new-Withdrawn s t q d a key (revoke_digest digest q.actor q.reason) now r
                (ground arith),
          )
        ]
        | inr (old, found) ↦
            let duplicate =
              repeated-duplicate key (revoke_digest digest q.actor q.reason) s old
                (checked ∙ ap ok found) in
            inl (ground arith, ground arith)
      ]

  Withdrawn-IsLogged :
      (q : RevokeRequest) (s t : Store) (a : UserAchievement) (r : Receipt)
      → All IsLogged s.awards
      → IsLogged a
      → Withdrawn digest q s a r t
      → All IsLogged t.awards
  unfolding follows apply_event revoke_event
  Withdrawn-IsLogged q s t a r v w (Withdrawn.nothing i o p e) = rw e v
  Withdrawn-IsLogged q s t a r v w
        (Withdrawn.taken_back tier d last k id now e is active l o p rows) =
      let logged =
        extended-IsLogged a (with_event (revoked_award a now) e) e w
          (rw is (ground (arith, same_tier_refl a.active_tier))) refl (rw is refl) in
      rw rows (put_award-All IsLogged (with_event (revoked_award a now) e) s.awards logged v)

  pub revoke-IsLogged :
      (s t : Store) (q : RevokeRequest) (now : Time) (r : Receipt)
      → revoke digest s q now ≡ ok (r, t)
      → All IsLogged s.awards
      → All IsLogged t.awards
  unfolding find_award
  revoke-IsLogged s t q now r h v = elim (revoke-cases s t q now r h) [
    | inl (same, duplicate) ↦ rw same v
    | inr (a, found, withdrawn) ↦
        Withdrawn-IsLogged q s t a r v
          (find-All IsLogged (is_award q.user_id q.definition_id) s.awards found v) withdrawn
  ]
