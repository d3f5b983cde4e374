-- ===== src/Achievements/Grants/Kept.antt =====
-- `grant`, `revoke` and `flag_disputed` of achievements/services/grants.py on the logs of the awards.
use ticket_sandbox.Prelude.{
  ℕ, ◌≡◌, ◌⊎◌, refl, true, false, ok, >>=-eq-ok, arith, Option-cases, inl, inr, All,
}
use ticket_sandbox.Prelude.Text.{Text, codes}
use ticket_sandbox.Prelude.Json.{Json}
use ticket_sandbox.Achievements.Catalog.{AchievementTier}
use ticket_sandbox.Achievements.Records.{Time, UserAchievement, Store, put_award, get_or_new}
use ticket_sandbox.Achievements.Grants.{GrantRequest, Receipt, repeated, is_no_higher}
use ticket_sandbox.Achievements.Grants.Grant.{
  grant_event, raised_award, grant, admit_grant, grant_digest, operation_key,
}
use ticket_sandbox.Achievements.Grants.Cases.{Decided, with_event, grant_new-Decided}
use ticket_sandbox.Achievements.Grants.Log.{
  IsLogged, follows, apply_event, projection_of, extended-IsLogged, put_award-All,
  get_or_new-IsLogged,
}

module _ (digest : Json → Text) where
  grant_event-follows :
      (q : GrantRequest) (tier : AchievementTier) (a : UserAchievement) (k : Text) (id : ℕ)
      (now : Time)
      → is_no_higher tier a.active_tier ≡ false
      → follows (projection_of a) (grant_event digest q tier a k id now) ≡ true
  unfolding follows grant_event
  grant_event-follows q tier a k id now h = elim (Option-cases a.active_tier) [
    | inl e ↦ ground arith
    | inr (t, e) ↦ ground arith
  ]

  grant_event-columns :
      (q : GrantRequest) (tier : AchievementTier) (a : UserAchievement) (k : Text) (id : ℕ)
      (now : Time)
      → projection_of (raised_award a tier now)
        ≡ apply_event (projection_of a) (grant_event digest q tier a k id now)
  unfolding apply_event grant_event
  grant_event-columns q tier a k id now = elim (Option-cases a.active_tier) [
    | inl e ↦ ground arith
    | inr (t, e) ↦ ground arith
  ]

  Decided-IsLogged :
      (q : GrantRequest) (s t : Store) (a : UserAchievement) (r : Receipt)
      → All IsLogged s.awards
      → IsLogged a
      → Decided digest q s a r t
      → All IsLogged t.awards
  Decided-IsLogged q s t a r v w (Decided.suppressed b o p e) =
      rw e (put_award-All IsLogged a s.awards w v)
  Decided-IsLogged q s t a r v w (Decided.kept tier f l o p e) =
      rw e (put_award-All IsLogged a s.awards w v)
  Decided-IsLogged q s t a r v w (Decided.raised_to tier k id now e is f h o p rows) =
      let logged =
        extended-IsLogged a (with_event (raised_award a tier now) e) e w
          (rw is (grant_event-follows q tier a k id now h)) refl
          (rw is (grant_event-columns q tier a k id now)) in
      rw rows (
        put_award-All IsLogged (with_event (raised_award a tier now) e) (put_award a s.awards)
          logged (put_award-All IsLogged a s.awards w v))

  -- A call is the repetition of an earlier one, or decides on the award of the request.
  pub grant-cases :
      (s t : Store) (q : GrantRequest) (now : Time) (r : Receipt)
      → grant digest s q now ≡ ok (r, t)
      → (t ≡ s) ⊎ Decided digest q s (get_or_new s q.user_id q.definition_id) r t
  unfolding grant
  grant-cases s t q now r h =
      let (tier, h0, h1) = >>=-eq-ok (admit_grant s q now) _ h in
      let (key, h2, h3) =
        >>=-eq-ok (operation_key digest q.user_id q.definition_id (codes "grant") q.operation_id) _
          h1 in
      let (repeat, h4, h5) = >>=-eq-ok (repeated key (grant_digest digest tier q) s) _ h3 in
      elim (Option-cases repeat) [
        | inl new ↦ inr (
            grant_new-Decided digest s t q tier (get_or_new s q.user_id q.definition_id) key
              (grant_digest digest tier q) now r (ground arith))
        | inr (old, found) ↦ inl (ground arith)
      ]

  pub grant-IsLogged :
      (s t : Store) (q : GrantRequest) (now : Time) (r : Receipt)
      → grant digest s q now ≡ ok (r, t)
      → All IsLogged s.awards
      → All IsLogged t.awards
  grant-IsLogged s t q now r h v = elim (grant-cases s t q now r h) [
    | inl same ↦ rw same v
    | inr decided ↦
        Decided-IsLogged q s t (get_or_new s q.user_id q.definition_id) r v
          (get_or_new-IsLogged s q.user_id q.definition_id v) decided
  ]
