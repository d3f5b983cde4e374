-- ===== src/Achievements/Grants/Cases.antt =====
-- `grant` and `revoke` case by case: what became of the rows.
use ticket_sandbox.Prelude.{
  ℕ, ◌+◌, ◌≡◌, refl, true, false, not, ◌&&◌, [], ◌∷◌, ◌++◌, Option, none, some, ok, >>=-eq-ok,
  arith, raise_if, ◌∙◌, Bool-cases, inl, inr, max,
}
use ticket_sandbox.Prelude.Text.{Text}
use ticket_sandbox.Prelude.Json.{Json}
use ticket_sandbox.Achievements.Catalog.{AchievementTier}
use ticket_sandbox.Achievements.Records.{
  Time, AchievementEvent, UserAchievement, GrantOutcome, Store, User, key_taken, put_award,
  is_manual,
}
use ticket_sandbox.Achievements.Grants.{
  GrantRequest, clean_event, Receipt, remember, record_event, enqueue, check_revision, is_no_higher,
  grant_outcome,
}
use ticket_sandbox.Achievements.Grants.Grant.{raise_award, grant_new, grant_event, raised_award}

abbrev pub with_event : UserAchievement → AchievementEvent → UserAchievement
with_event a e = record a { events = a.events ++ e ∷ [] }

pub enqueue-awards :
    (s : Store) (a : UserAchievement) (e : AchievementEvent) → (enqueue s a e).awards ≡ s.awards
unfolding enqueue
enqueue-awards s a e = ground arith

pub remember-awards :
    (k d : Text) (s t : Store) (a : UserAchievement) (o : GrantOutcome)
    (e : Option AchievementEvent) (r : Receipt)
    → remember k d s a o e ≡ ok (r, t)
    → (t.awards ≡ s.awards) × (r.award ≡ a) × (r.outcome ≡ o) × (r.event ≡ e)
unfolding remember
remember-awards k d s t a o e r h = ground arith

pub record_event-awards :
    (s t : Store) (a b : UserAchievement) (e : AchievementEvent) (actor : Option User)
    → record_event s a e actor ≡ ok (b, t)
    → (b ≡ with_event a e) × (t.awards ≡ put_award (with_event a e) s.awards)
unfolding record_event
record_event-awards s t a b e actor h =
    let (u, cleaned, h1) = >>=-eq-ok (clean_event a e actor) _ h in
    let (u, fresh, h2) = >>=-eq-ok (raise_if (key_taken e.idempotency_key s.awards) _) _ h1 in
    ground arith

-- What a request with a new key does to the award `a` that it found or created.
pub data Decided (digest : Json → Text) (q : GrantRequest) (s : Store) (a : UserAchievement)
    (r : Receipt) (t : Store) : Type 0 where
  suppressed :
      not (is_manual q.source_type) && a.auto_grant_blocked ≡ true
      → r.outcome ≡ GrantOutcome.suppressed
      → r.award ≡ a
      → t.awards ≡ put_award a s.awards
      → Decided digest q s a r t
  kept :
      (tier : AchievementTier)
      → not (is_manual q.source_type) && a.auto_grant_blocked ≡ false
      → is_no_higher tier a.active_tier ≡ true
      → r.outcome ≡ GrantOutcome.no_op
      → r.award ≡ a
      → t.awards ≡ put_award a s.awards
      → Decided digest q s a r t
  raised_to :
      (tier : AchievementTier) (key : Text) (id : ℕ) (now : Time) (e : AchievementEvent)
      → e ≡ grant_event digest q tier a key id now
      → not (is_manual q.source_type) && a.auto_grant_blocked ≡ false
      → is_no_higher tier a.active_tier ≡ false
      → r.outcome ≡ grant_outcome a.active_tier
      → r.award ≡ with_event (raised_award a tier now) e
      → t.awards ≡ put_award (with_event (raised_award a tier now) e) (put_award a s.awards)
      → Decided digest q s a r t

module _ (digest : Json → Text) where
  raise_award-awards :
      (s t : Store) (q : GrantRequest) (tier : AchievementTier) (a : UserAchievement) (k d : Text)
      (now : Time) (r : Receipt)
      → raise_award digest s q tier a k d now ≡ ok (r, t)
      → let e = grant_event digest q tier a k s.next_event now in
        (r.outcome ≡ grant_outcome a.active_tier)
        × (r.award ≡ with_event (raised_award a tier now) e)
        × (t.awards ≡ put_award (with_event (raised_award a tier now) e) s.awards)
  unfolding raise_award
  raise_award-awards s t q tier a k d now r h =
      let e = grant_event digest q tier a k s.next_event now in
      let (saved, h1, h2) = >>=-eq-ok (record_event s (raised_award a tier now) e q.actor) _ h in
      let (award, rows) =
        record_event-awards s saved.1 (raised_award a tier now) saved.0 e q.actor h1 in
      let (same, held, outcome, event) =
        remember-awards k d (enqueue saved.1 saved.0 e) t saved.0 (grant_outcome a.active_tier)
          (some e) r h2 in
      (outcome, held ∙ award, same ∙ enqueue-awards saved.1 saved.0 e ∙ rows)

  pub grant_new-Decided :
      (s t : Store) (q : GrantRequest) (tier : AchievementTier) (a : UserAchievement) (k d : Text)
      (now : Time) (r : Receipt)
      → grant_new digest s q tier a k d now ≡ ok (r, t)
      → Decided digest q s a r t
  unfolding grant_new
  grant_new-Decided s t q tier a k d now r h =
      let u = record s {
        awards = put_award a s.awards;
        next_award = max s.next_award (a.id + 1);
      } in
      let (checked, h1, h2) = >>=-eq-ok (check_revision q.expected_revision a) _ h in
      elim (Bool-cases (not (is_manual q.source_type) && a.auto_grant_blocked)) [
        | inl blocked ↦
            let (same, held, outcome, event) =
              remember-awards k d u t a GrantOutcome.suppressed none r (ground arith) in
            Decided.suppressed blocked outcome held same
        | inr free ↦ elim (Bool-cases (is_no_higher tier a.active_tier)) [
          | inl low ↦
              let (same, held, outcome, event) =
                remember-awards k d u t a GrantOutcome.no_op none r (ground arith) in
              Decided.kept tier free low outcome held same
          | inr high ↦
              let (outcome, award, rows) =
                raise_award-awards u t q tier a k d now r (ground arith) in
              Decided.raised_to tier k s.next_event now
                (grant_event digest q tier a k s.next_event now) refl free high outcome award rows
        ]
      ]
