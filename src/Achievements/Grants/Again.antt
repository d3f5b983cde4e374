-- ===== src/Achievements/Grants/Again.antt =====
-- `grant` of achievements/services/grants.py, called twice with the same arguments.
use ticket_sandbox.Prelude.{
  ◌≤◌, ◌≡◌, ◌⊎◌, refl, ap, ◌∙◌, false, not, ◌&&◌, Option, none, some, ok, raise_if, >>=-eq-ok,
  arith, Bool-cases, Option-cases, inl, inr,
}
use ticket_sandbox.Prelude.Text.{Text, text_beq, codes}
use ticket_sandbox.Prelude.Json.{Json}
use ticket_sandbox.Achievements.Errors.{AchievementError}
use ticket_sandbox.Achievements.Catalog.{AchievementTier}
use ticket_sandbox.Achievements.Records.{
  Time, GrantOutcome, Store, find_award, find_operation, get_or_new, is_manual,
}
use ticket_sandbox.Achievements.Grants.{
  GrantRequest, Receipt, repeated, lock_user, get_definition, get_tier,
}
use ticket_sandbox.Achievements.Grants.Grant.{
  grant, grant_again, admit_grant, check_actor, is_bad_date, grant_digest, operation_key,
}
use ticket_sandbox.Achievements.Grants.Repeated.{
  IsSameCatalog, grant_new-IsReceived, repeated-again,
}

is_bad_date-later :
    (at : Option Time) (now later : Time)
    → now ≤ later
    → is_bad_date at now ≡ false
    → is_bad_date at later ≡ false
is_bad_date-later none now later h e = cc
is_bad_date-later (some t) now later h e = ground arith

-- A request that was admitted is admitted later, while the catalog stays.
admit_grant-later :
    (s t : Store) (q : GrantRequest) (now later : Time) (tier : AchievementTier)
    → IsSameCatalog s t
    → now ≤ later
    → admit_grant s q now ≡ ok tier
    → admit_grant t q later ≡ ok tier
unfolding admit_grant lock_user get_definition get_tier
admit_grant-later s t q now later tier (users, definitions, tiers) h admitted =
    let (u, actor, h1) = >>=-eq-ok (check_actor q) _ admitted in
    let (v, dated, h2) =
      >>=-eq-ok (raise_if (is_bad_date q.occurred_at now) AchievementError.bad_date) _ h1 in
    let good : is_bad_date q.occurred_at now ≡ false = ground arith in
    let fine = is_bad_date-later q.occurred_at now later h good in
    rw (users) (rw (definitions) (rw (tiers) (rw (actor) (rw (fine) h2))))

module _ (digest : Json → Text) where
  grant-second :
      (t : Store) (q : GrantRequest) (later : Time) (tier : AchievementTier) (key : Text)
      (r : Receipt)
      → admit_grant t q later ≡ ok tier
      → operation_key digest q.user_id q.definition_id (codes "grant") q.operation_id ≡ ok key
      → repeated key (grant_digest digest tier q) t ≡ ok (some r)
      → grant digest t q later ≡ grant_again t q r
  unfolding grant
  grant-second t q later tier key r admitted keyed found = ground arith

pub repeated-duplicate :
    (k d : Text) (s : Store) (r : Receipt)
    → repeated k d s ≡ ok (some r)
    → r.outcome ≡ GrantOutcome.duplicate
unfolding repeated
repeated-duplicate k d s r h = elim (Option-cases (find_operation k s.operations)) [
  | inl new ↦ ground arith
  | inr (o, found) ↦ elim (Bool-cases (text_beq o.request_digest d)) [
    | inl same ↦ elim (Option-cases (find_award o.user_id o.definition s.awards)) [
      | inl missing ↦ ground arith
      | inr (a, stored) ↦ ground arith
    ]
    | inr other ↦ ground arith
  ]
]

-- What a repetition is answered: the award, and no new event.
abbrev pub IsRepetition : Receipt → Receipt → Type 0
IsRepetition first again =
    (again.award ≡ first.award)
    × ((again.outcome ≡ GrantOutcome.duplicate) ⊎ (again.outcome ≡ GrantOutcome.suppressed))

grant_again-IsRepetition :
    (t : Store) (q : GrantRequest) (r : Receipt)
    → r.outcome ≡ GrantOutcome.duplicate
    → (again : Receipt) × (grant_again t q r ≡ ok (again, t)) × IsRepetition r again
unfolding grant_again
grant_again-IsRepetition t q r h =
    elim (Bool-cases (not (is_manual q.source_type) && r.award.auto_grant_blocked)) [
      | inl blocked ↦ (
        record { award = r.award; outcome = GrantOutcome.suppressed; event = none },
        ground arith,
        (refl, inr refl),
      )
      | inr free ↦ (r, ground arith, (refl, inl h))
    ]

module _ (digest : Json → Text) where
  grant-old :
      (s t : Store) (q : GrantRequest) (now later : Time) (tier : AchievementTier) (key : Text)
      (old r : Receipt)
      → admit_grant s q now ≡ ok tier
      → now ≤ later
      → operation_key digest q.user_id q.definition_id (codes "grant") q.operation_id ≡ ok key
      → repeated key (grant_digest digest tier q) s ≡ ok (some old)
      → grant_again s q old ≡ ok (r, t)
      → (again : Receipt) × (grant digest t q later ≡ ok (again, t)) × IsRepetition r again
  grant-old s t q now later tier key old r admitted after keyed found h =
      let (again, answered, duplicate) =
        grant_again-IsRepetition s q old
          (repeated-duplicate key (grant_digest digest tier q) s old found) in
      let same : t ≡ s = ground arith in
      let first : again ≡ r = ground arith in
      let second =
        grant-second digest s q later tier key old
          (admit_grant-later s s q now later tier (refl, refl, refl) after admitted) keyed found in
      (again, rw same (second ∙ answered), (ap (λ x. x.award) first, duplicate.1))

  -- A request that has been answered may come again, later: it is answered as a duplicate, or as
  -- suppressed, with the award of the first answer, and no table changes.
  pub grant-idempotent :
      (s t : Store) (q : GrantRequest) (now later : Time) (r : Receipt)
      → grant digest s q now ≡ ok (r, t)
      → now ≤ later
      → (again : Receipt) × (grant digest t q later ≡ ok (again, t)) × IsRepetition r again
  unfolding grant
  grant-idempotent s t q now later r h after =
      let (tier, admitted, h1) = >>=-eq-ok (admit_grant s q now) _ h in
      let (key, keyed, h2) =
        >>=-eq-ok (operation_key digest q.user_id q.definition_id (codes "grant") q.operation_id) _
          h1 in
      let (repeat, looked, h3) = >>=-eq-ok (repeated key (grant_digest digest tier q) s) _ h2 in
      elim (Option-cases repeat) [
        | inl new ↦
            let v =
              grant_new-IsReceived digest s t q tier (get_or_new s q.user_id q.definition_id) key
                (grant_digest digest tier q) now r (ground arith) in
            let second : Receipt = record {
              award = r.award;
              outcome = GrantOutcome.duplicate;
              event = r.event;
            } in
            let (again, answered, same) = grant_again-IsRepetition t q second refl in
            (
              again,
              grant-second digest t q later tier key second
                    (admit_grant-later s t q now later tier v.catalog after admitted) keyed
                    (repeated-again key (grant_digest digest tier q) s t r v)
                  ∙ answered,
              same,
            )
        | inr (old, found) ↦
            grant-old s t q now later tier key old r admitted after keyed (looked ∙ ap ok found)
              (ground arith)
      ]
