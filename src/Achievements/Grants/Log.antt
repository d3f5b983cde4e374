-- ===== src/Achievements/Grants/Log.antt =====
-- The rows of AchievementEvent (achievements/models.py) as a log, from which an award is computed.
use ticket_sandbox.Prelude.{
  ℕ, ◌+◌, ◌≡◌, refl, Bool, true, false, not, ◌&&◌, List, [], ◌∷◌, ◌++◌, Option, none, some, All,
  find-All, arith, Bool-cases, Option-cases, inl, inr, if◌then◌else◌, nat_beq, ltb,
}
use ticket_sandbox.Achievements.Catalog.{AchievementTier}
use ticket_sandbox.Achievements.Records.{
  Action, AchievementEvent, UserAchievement, Store, find_award, put_award, get_or_new, is_award,
}

-- The columns of an award that its events determine.
pub record Projection : Type 0 where
  pub tier : Option AchievementTier
  pub revision : ℕ
  pub auto_grant_blocked : Bool
  pub evidence_disputed : Bool

abbrev pub start : Projection
start = record { tier = none; revision = 0; auto_grant_blocked = false; evidence_disputed = false }

abbrev pub projection_of : UserAchievement → Projection
projection_of a = record {
  tier = a.active_tier;
  revision = a.revision;
  auto_grant_blocked = a.auto_grant_blocked;
  evidence_disputed = a.evidence_disputed;
}

-- The tiers are the same row.
abbrev pub same_tier : Option AchievementTier → Option AchievementTier → Bool
same_tier none none = true
same_tier (some t) (some u) = nat_beq t.id u.id
same_tier _ _ = false

abbrev pub is_higher : Option AchievementTier → Option AchievementTier → Bool
is_higher (some t) (some u) = ltb t.rank u.rank
is_higher _ _ = false

abbrev pub is_none {ℓ} : {A : Type ℓ} → Option A → Bool
is_none none = true
is_none (some a) = false

-- Whether an event may come next.
unfoldable pub follows : Projection → AchievementEvent → Bool
follows p e = same_tier e.from_tier p.tier && (elim e.action [
  | Action.grant ↦ is_none p.tier && not (is_none e.to_tier)
  | Action.upgrade ↦ is_higher p.tier e.to_tier
  | Action.revoke ↦ not (is_none p.tier) && is_none e.to_tier
  | Action.evidence_disputed ↦ not (is_none p.tier) && same_tier e.to_tier p.tier
])

unfoldable pub apply_event : Projection → AchievementEvent → Projection
apply_event p e = elim e.action [
  | Action.grant ↦ record p { tier = e.to_tier; revision = p.revision + 1 }
  | Action.upgrade ↦ record p { tier = e.to_tier; revision = p.revision + 1 }
  | Action.revoke ↦ record p { tier = none; revision = p.revision + 1; auto_grant_blocked = true }
  | Action.evidence_disputed ↦ record p { revision = p.revision + 1; evidence_disputed = true }
]

-- What a log makes of an award, when every event of it may come where it stands.
unfoldable pub replay : Projection → List AchievementEvent → Option Projection
unfolding follows apply_event
replay p [] = some p
replay p (e ∷ es) = let q = replay (apply_event p e) es in if follows p e then q else none

abbrev pub IsLogged : UserAchievement → Type 0
IsLogged a = replay start a.events ≡ some (projection_of a)

pub replay-snoc :
    (p q : Projection) (es : List AchievementEvent) (e : AchievementEvent)
    → replay p es ≡ some q
    → follows q e ≡ true
    → replay p (es ++ e ∷ []) ≡ some (apply_event q e)
unfolding replay
replay-snoc p q [] e h f = ground arith
replay-snoc p q (d ∷ es) e h f = elim (Bool-cases (follows p d)) [
  | inl here ↦ ground (arith, replay-snoc (apply_event p d) q es e)
  | inr there ↦ ground arith
]

pub same_tier_refl : (t : Option AchievementTier) → same_tier t t ≡ true
same_tier_refl none = refl
same_tier_refl (some t) = ground arith

-- An award with one more event.
pub extended-IsLogged :
    (a b : UserAchievement) (e : AchievementEvent)
    → IsLogged a
    → follows (projection_of a) e ≡ true
    → b.events ≡ a.events ++ e ∷ []
    → projection_of b ≡ apply_event (projection_of a) e
    → IsLogged b
extended-IsLogged a b e v f events columns =
    rw (events) (rw (columns) (replay-snoc start (projection_of a) a.events e v f))

pub put_award-All {ℓ} :
    (P : UserAchievement → Type ℓ) (a : UserAchievement) (rows : List UserAchievement)
    → P a
    → All P rows
    → All P (put_award a rows)
unfolding put_award
put_award-All P a [] v vs = (v, tt)
put_award-All P a (b ∷ rows) v vs = elim (Bool-cases (is_award a.user_id a.definition b)) [
  | inl here ↦ rw here (v, vs.1)
  | inr there ↦ rw there (vs.0, put_award-All P a rows v vs.1)
]

pub get_or_new-IsLogged :
    (s : Store) (user definition : ℕ)
    → All IsLogged s.awards
    → IsLogged (get_or_new s user definition)
unfolding get_or_new replay find_award
get_or_new-IsLogged s user definition v =
    elim (Option-cases (find_award user definition s.awards)) [
      | inl missing ↦ ground arith
      | inr (a, found) ↦
          rw (found, get_or_new) (find-All IsLogged (is_award user definition) s.awards found v)
    ]
