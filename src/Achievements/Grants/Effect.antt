-- ===== src/Achievements/Grants/Effect.antt =====
-- What `grant` and `revoke` of achievements/services/grants.py do to the award of any user.
use ticket_sandbox.Prelude.{
  ℕ, ◌≤◌, ◌≡◌, refl, true, false, List, [], ◌∷◌, Option, none, some, ok, find-passes, arith,
  Bool-cases, Option-cases, inl, inr,
}
use ticket_sandbox.Prelude.Text.{Text}
use ticket_sandbox.Prelude.Json.{Json}
use ticket_sandbox.Achievements.Records.{
  Time, UserAchievement, GrantOutcome, Store, find_award, put_award, get_or_new, is_award,
  is_manual,
}
use ticket_sandbox.Achievements.Grants.{GrantRequest, RevokeRequest, Receipt, tier_rank}
use ticket_sandbox.Achievements.Grants.Grant.{grant, raised_award}
use ticket_sandbox.Achievements.Grants.Revoke.{revoke, revoked_award}
use ticket_sandbox.Achievements.Grants.Repeated.{find_award-put}
use ticket_sandbox.Achievements.Grants.Cases.{Decided, with_event}
use ticket_sandbox.Achievements.Grants.Kept.{grant-cases}
use ticket_sandbox.Achievements.Grants.Withdrawn.{Withdrawn, revoke-cases}

-- The rank of a user's award, 0 when there is none.
abbrev award_rank : Option UserAchievement → ℕ
award_rank none = 0
award_rank (some a) = tier_rank a.active_tier

abbrev pub rank_in : List UserAchievement → ℕ → ℕ → ℕ
rank_in rows user definition = award_rank (find_award user definition rows)

find_award-is :
    (user definition : ℕ) (rows : List UserAchievement) (a : UserAchievement)
    → find_award user definition rows ≡ some a
    → (a.user_id ≡ user) × (a.definition ≡ definition)
unfolding find_award is_award
find_award-is user definition rows a h =
    let passed = find-passes (is_award user definition) rows h in (ground arith, ground arith)

find_award-put_other :
    (user definition : ℕ) (a : UserAchievement) (rows : List UserAchievement)
    → is_award user definition a ≡ false
    → find_award user definition (put_award a rows) ≡ find_award user definition rows
unfolding find_award put_award is_award
find_award-put_other user definition a [] h = ground arith
find_award-put_other user definition a (b ∷ rows) h =
    elim (Bool-cases (is_award a.user_id a.definition b)) [
      | inl here ↦ ground arith
      | inr there ↦ elim (Bool-cases (is_award user definition b)) [
        | inl found ↦ ground arith
        | inr other ↦ ground (arith, find_award-put_other user definition a rows)
      ]
    ]

-- A saved award of no lower rank than the one that it replaces.
put_award-rank :
    (a : UserAchievement) (rows : List UserAchievement) (user definition : ℕ)
    → rank_in rows a.user_id a.definition ≤ tier_rank a.active_tier
    → rank_in rows user definition ≤ rank_in (put_award a rows) user definition
unfolding is_award
put_award-rank a rows user definition h = elim (Bool-cases (is_award user definition a)) [
  | inr other ↦ rw (find_award-put_other user definition a rows other) (omega arith)
  | inl same ↦
      let u : user ≡ a.user_id = ground arith in
      let d : definition ≡ a.definition = ground arith in
      rw (u) (rw (d) (rw (find_award-put a rows) h))
]

get_or_new-is :
    (s : Store) (user definition : ℕ)
    → let a = get_or_new s user definition in
      (a.user_id ≡ user)
      × (a.definition ≡ definition)
      × (rank_in s.awards user definition ≡ tier_rank a.active_tier)
unfolding get_or_new
get_or_new-is s user definition = elim (Option-cases (find_award user definition s.awards)) [
  | inl missing ↦ (ground arith, ground arith, ground arith)
  | inr (a, found) ↦
      let (u, d) = find_award-is user definition s.awards a found in
      (ground arith, ground arith, ground arith)
]

Decided-rank :
    (digest : Json → Text) (q : GrantRequest) (s t : Store) (a : UserAchievement) (r : Receipt)
    (user definition : ℕ)
    → rank_in s.awards a.user_id a.definition ≡ tier_rank a.active_tier
    → Decided digest q s a r t
    → rank_in s.awards user definition ≤ rank_in t.awards user definition
Decided-rank digest q s t a r user definition h (Decided.suppressed b o p e) =
    rw e (put_award-rank a s.awards user definition (omega arith))
Decided-rank digest q s t a r user definition h (Decided.kept tier f l o p e) =
    rw e (put_award-rank a s.awards user definition (omega arith))
Decided-rank digest q s t a r user definition h
      (Decided.raised_to tier k id now e is f high o p rows) =
    let b = with_event (raised_award a tier now) e in
    let mid = put_award-rank a s.awards user definition (omega arith) in
    let low : tier_rank a.active_tier ≤ tier.rank = elim (Option-cases a.active_tier) [
      | inl n ↦ ground arith
      | inr (old, active) ↦ ground arith
    ] in
    let stored : rank_in (put_award a s.awards) a.user_id a.definition ≡ tier_rank a.active_tier =
      rw (find_award-put a s.awards) refl in
    let up = put_award-rank b (put_award a s.awards) user definition (omega arith) in
    rw rows (omega arith)

-- A grant that returns lowers the rank of no user's award.
pub grant-raises :
    (digest : Json → Text) (s t : Store) (q : GrantRequest) (now : Time) (r : Receipt)
    (user definition : ℕ)
    → grant digest s q now ≡ ok (r, t)
    → rank_in s.awards user definition ≤ rank_in t.awards user definition
grant-raises digest s t q now r user definition h = elim (grant-cases digest s t q now r h) [
  | inl same ↦ rw same (omega arith)
  | inr decided ↦
      let a = get_or_new s q.user_id q.definition_id in
      let (u, d, rank) = get_or_new-is s q.user_id q.definition_id in
      Decided-rank digest q s t a r user definition (rw (u) (rw (d) rank)) decided
]

get_or_new-found :
    (s : Store) (user definition : ℕ) (a : UserAchievement)
    → find_award user definition s.awards ≡ some a
    → get_or_new s user definition ≡ a
unfolding get_or_new
get_or_new-found s user definition a h = ground arith

put_award-found :
    (user definition : ℕ) (rows : List UserAchievement) (a : UserAchievement)
    → find_award user definition rows ≡ some a
    → find_award user definition (put_award a rows) ≡ some a
put_award-found user definition rows a h =
    let (u, d) = find_award-is user definition rows a h in
    rw (← u) (rw (← d) (find_award-put a rows))

Decided-blocked :
    (digest : Json → Text) (q : GrantRequest) (s t : Store) (a : UserAchievement) (r : Receipt)
    → find_award q.user_id q.definition_id s.awards ≡ some a
    → a.auto_grant_blocked ≡ true
    → is_manual q.source_type ≡ false
    → Decided digest q s a r t
    → find_award q.user_id q.definition_id t.awards ≡ some a
Decided-blocked digest q s t a r h blocked automatic (Decided.suppressed b o p e) =
    rw e (put_award-found q.user_id q.definition_id s.awards a h)
Decided-blocked digest q s t a r h blocked automatic (Decided.kept tier f l o p e) = ground arith
Decided-blocked digest q s t a r h blocked automatic
      (Decided.raised_to tier k id now e is f high o p rows) =
    ground arith

grant-blocked :
    (digest : Json → Text) (s t : Store) (q : GrantRequest) (now : Time) (r : Receipt)
    (a : UserAchievement)
    → grant digest s q now ≡ ok (r, t)
    → find_award q.user_id q.definition_id s.awards ≡ some a
    → a.auto_grant_blocked ≡ true
    → is_manual q.source_type ≡ false
    → find_award q.user_id q.definition_id t.awards ≡ some a
grant-blocked digest s t q now r a h found blocked automatic =
    elim (grant-cases digest s t q now r h) [
      | inl same ↦ rw same found
      | inr decided ↦
          Decided-blocked digest q s t a r found blocked automatic
            (rw (get_or_new-found s q.user_id q.definition_id a found) at decided)
    ]

-- What a revocation leaves: an award without a tier, which is closed to automatic requests.
Withdrawn-closed :
    (digest : Json → Text) (q : RevokeRequest) (s t : Store) (a : UserAchievement) (r : Receipt)
    → find_award q.user_id q.definition_id s.awards ≡ some a
    → r.outcome ≡ GrantOutcome.revoked
    → Withdrawn digest q s a r t
    → (find_award q.user_id q.definition_id t.awards ≡ some r.award)
      × (r.award.active_tier ≡ none)
      × (r.award.auto_grant_blocked ≡ true)
Withdrawn-closed digest q s t a r found h (Withdrawn.nothing i o p e) = ground arith
Withdrawn-closed digest q s t a r found h
      (Withdrawn.taken_back tier d last k id now e is active l o p rows) =
    let b = with_event (revoked_award a now) e in
    let (u, w) = find_award-is q.user_id q.definition_id s.awards a found in
    (rw rows (rw p (rw (← u) (rw (← w) (find_award-put b s.awards)))), rw p refl, rw p refl)

-- After a revocation has taken a tier, an automatic request for the same user and definition that
-- returns changes nothing of the award, which has no tier.
pub revoke-blocks :
    (digest : Json → Text) (s t u : Store) (p : RevokeRequest) (q : GrantRequest) (now later : Time)
    (taken given : Receipt)
    → revoke digest s p now ≡ ok (taken, t)
    → taken.outcome ≡ GrantOutcome.revoked
    → q.user_id ≡ p.user_id
    → q.definition_id ≡ p.definition_id
    → is_manual q.source_type ≡ false
    → grant digest t q later ≡ ok (given, u)
    → (find_award q.user_id q.definition_id u.awards ≡ some taken.award)
      × (taken.award.active_tier ≡ none)
revoke-blocks digest s t u p q now later taken given h revoked user definition automatic g =
    elim (revoke-cases digest s t p now taken h) [
      | inl (same, duplicate) ↦ ground arith
      | inr (a, found, withdrawn) ↦
          let (stored, empty, closed) =
            Withdrawn-closed digest p s t a taken found revoked withdrawn in
          (
            grant-blocked digest t u q later given taken.award g
                (rw (user) (rw (definition) stored)) closed automatic,
            empty,
          )
    ]
