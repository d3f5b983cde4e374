-- ===== src/Achievements/Notifications/InOrder.antt =====
-- The order of the events in `repair_delivery` of achievements/services/notifications.py.
use ticket_sandbox.Prelude.{
  suc, ◌≡◌, ap, refl, ◌∙◌, List, [], ◌∷◌, All, length, arith, Bool-cases, inl, inr, leb,
}
use ticket_sandbox.Achievements.Records.{AchievementEvent, UserAchievement}
use ticket_sandbox.Achievements.Notifications.Repair.{insert_pair, pairs_by_id}

module _ {ℓ} (P : UserAchievement × AchievementEvent → Type ℓ) where
  insert_pair-All :
      (p : UserAchievement × AchievementEvent) (rows : List (UserAchievement × AchievementEvent))
      → P p
      → All P rows
      → All P (insert_pair p rows)
  unfolding insert_pair
  insert_pair-All p [] v vs = (v, tt)
  insert_pair-All p (q ∷ rows) v vs = elim (Bool-cases (leb p.1.id q.1.id)) [
    | inl before ↦ rw before (v, vs)
    | inr behind ↦ rw behind (vs.0, insert_pair-All p rows v vs.1)
  ]

  pub pairs_by_id-All :
      (rows : List (UserAchievement × AchievementEvent)) → All P rows → All P (pairs_by_id rows)
  unfolding pairs_by_id
  pairs_by_id-All [] vs = tt
  pairs_by_id-All (p ∷ rows) vs =
      insert_pair-All p (pairs_by_id rows) vs.0 (pairs_by_id-All rows vs.1)

  All-insert_pair :
      (p : UserAchievement × AchievementEvent) (rows : List (UserAchievement × AchievementEvent))
      → All P (insert_pair p rows)
      → P p × All P rows
  unfolding insert_pair
  All-insert_pair p [] vs = vs
  All-insert_pair p (q ∷ rows) vs = elim (Bool-cases (leb p.1.id q.1.id)) [
    | inl before ↦ let all : All P (p ∷ q ∷ rows) = rw before at vs in all
    | inr behind ↦
        let all : All P (q ∷ insert_pair p rows) = rw behind at vs in
        let (v, rest) = All-insert_pair p rows all.1 in (v, (all.0, rest))
  ]

  pub All-pairs_by_id :
      (rows : List (UserAchievement × AchievementEvent)) → All P (pairs_by_id rows) → All P rows
  unfolding pairs_by_id
  All-pairs_by_id [] vs = tt
  All-pairs_by_id (p ∷ rows) vs =
      let (v, rest) = All-insert_pair p (pairs_by_id rows) vs in (v, All-pairs_by_id rows rest)

length-insert_pair :
    (p : UserAchievement × AchievementEvent) (rows : List (UserAchievement × AchievementEvent))
    → length (insert_pair p rows) ≡ suc (length rows)
unfolding insert_pair
length-insert_pair p [] = refl
length-insert_pair p (q ∷ rows) = ground (arith, length-insert_pair p rows)

pub length-pairs_by_id :
    (rows : List (UserAchievement × AchievementEvent)) → length (pairs_by_id rows) ≡ length rows
unfolding pairs_by_id
length-pairs_by_id [] = refl
length-pairs_by_id (p ∷ rows) =
    length-insert_pair p (pairs_by_id rows) ∙ ap suc (length-pairs_by_id rows)
