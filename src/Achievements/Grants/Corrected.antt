-- ===== src/Achievements/Grants/Corrected.antt =====
-- `flag_disputed` of achievements/services/grants.py on the logs of the awards.
use ticket_sandbox.Prelude.{
  ◌≡◌, refl, ◌||◌, Bool, true, not, List, [], ◌∷◌, none, ok, >>=-eq-ok, arith, Bool-cases,
  Option-cases, inl, inr, All,
}
use ticket_sandbox.Prelude.Text.{Text}
use ticket_sandbox.Prelude.Json.{Json}
use ticket_sandbox.Achievements.Catalog.{AchievementDefinition}
use ticket_sandbox.Achievements.Records.{
  Time, AchievementEvent, UserAchievement, Store, is_manual, last_proof, key_taken,
}
use ticket_sandbox.Achievements.Grants.{record_event, get_definition, lock_user}
use ticket_sandbox.Achievements.Grants.Dispute.{
  Correction, is_concerned, has_tier, dispute_event, disputed_award, dispute_key, dispute_affected,
  dispute_due, dispute_proof, dispute_award, dispute_awards, flag_disputed, is_affected,
}
use ticket_sandbox.Achievements.Grants.Cases.{with_event, record_event-awards}
use ticket_sandbox.Achievements.Grants.Log.{
  IsLogged, follows, apply_event, extended-IsLogged, put_award-All, same_tier_refl,
}

module _ (digest : Json → Text) where
  dispute_affected-IsLogged :
      (s t : Store) (c : Correction) (a : UserAchievement) (proof : AchievementEvent) (now : Time)
      (affected : Bool)
      → dispute_affected digest s c a proof now affected ≡ ok t
      → has_tier a ≡ true
      → IsLogged a
      → All IsLogged s.awards
      → All IsLogged t.awards
  unfolding dispute_affected dispute_event follows apply_event
  dispute_affected-IsLogged s t c a proof now affected h active w v =
      let e = dispute_event digest c a proof (dispute_key digest c a) s.next_event now in
      elim (Bool-cases (not affected || key_taken (dispute_key digest c a) s.awards)) [
        | inl skipped ↦ let same : t ≡ s = ground arith in rw same v
        | inr due ↦
            let (saved, h2, h3) =
              >>=-eq-ok (record_event s (disputed_award a now) e none) (λ saved. ok saved.1)
                {out = t} (ground arith) in
            let (award, rows) =
              record_event-awards s saved.1 (disputed_award a now) saved.0 e none h2 in
            let logged =
              extended-IsLogged a (with_event (disputed_award a now) e) e w
                (ground (arith, same_tier_refl a.active_tier)) refl refl in
            let same : saved.1 ≡ t = ground arith in
            rw (← same) (
              rw rows
                (put_award-All IsLogged (with_event (disputed_award a now) e) s.awards logged v))
      ]

  dispute_due-IsLogged :
      (s t : Store) (c : Correction) (a : UserAchievement) (proof : AchievementEvent) (now : Time)
      (d : AchievementDefinition)
      → dispute_due digest s c a proof now d ≡ ok t
      → has_tier a ≡ true
      → IsLogged a
      → All IsLogged s.awards
      → All IsLogged t.awards
  unfolding dispute_due
  dispute_due-IsLogged s t c a proof now d h active w v =
      let (affected, _, h1) = >>=-eq-ok (is_affected c d proof) _ h in
      dispute_affected-IsLogged s t c a proof now affected h1 active w v

  dispute_proof-IsLogged :
      (s t : Store) (c : Correction) (a : UserAchievement) (proof : AchievementEvent) (now : Time)
      → dispute_proof digest s c a proof now ≡ ok t
      → has_tier a ≡ true
      → IsLogged a
      → All IsLogged s.awards
      → All IsLogged t.awards
  unfolding dispute_proof
  dispute_proof-IsLogged s t c a proof now h active w v =
      elim (Bool-cases (is_manual proof.source_type)) [
        | inl manual ↦ let same : t ≡ s = ground arith in rw same v
        | inr automatic ↦
            let (d, defined, h1) =
              >>=-eq-ok (get_definition s a.definition) (dispute_due digest s c a proof now)
                (ground arith) in
            dispute_due-IsLogged s t c a proof now d h1 active w v
      ]

  dispute_award-IsLogged :
      (s t : Store) (c : Correction) (a : UserAchievement) (now : Time)
      → dispute_award digest s c a now ≡ ok t
      → IsLogged a
      → All IsLogged s.awards
      → All IsLogged t.awards
  unfolding dispute_award
  dispute_award-IsLogged s t c a now h w v = elim (Bool-cases (is_concerned c a)) [
    | inr other ↦ let same : t ≡ s = ground arith in rw same v
    | inl concerned ↦ elim (Option-cases (last_proof a.events)) [
      | inl never ↦ let same : t ≡ s = ground arith in rw same v
      | inr (proof, found) ↦
          dispute_proof-IsLogged s t c a proof now (ground arith) (ground arith) w v
    ]
  ]

  dispute_awards-IsLogged :
      (s t : Store) (c : Correction) (rows : List UserAchievement) (now : Time)
      → dispute_awards digest s c rows now ≡ ok t
      → All IsLogged rows
      → All IsLogged s.awards
      → All IsLogged t.awards
  unfolding dispute_awards
  dispute_awards-IsLogged s t c [] now h w v = let same : t ≡ s = ground arith in rw same v
  dispute_awards-IsLogged s t c (a ∷ rows) now h w v =
      let (u, h1, h2) = >>=-eq-ok (dispute_award digest s c a now) _ h in
      dispute_awards-IsLogged u t c rows now h2 w.1 (dispute_award-IsLogged s u c a now h1 w.0 v)

  pub flag_disputed-IsLogged :
      (s t : Store) (c : Correction) (now : Time)
      → flag_disputed digest s c now ≡ ok t
      → All IsLogged s.awards
      → All IsLogged t.awards
  unfolding flag_disputed
  flag_disputed-IsLogged s t c now h v =
      let (u, locked, h1) = >>=-eq-ok (lock_user s c.user_id) _ h in
      dispute_awards-IsLogged s t c s.awards now h1 v v
