-- ===== src/Achievements/Grants/Repeated.antt =====
-- `grant` of achievements/services/grants.py, when a request comes a second time.
use ticket_sandbox.Prelude.{
  ◌+◌, ◌≡◌, refl, ◌∙◌, true, not, ◌&&◌, List, [], ◌∷◌, ◌++◌, Option, none, some, ok, raise_if,
  >>=-eq-ok, arith, Bool-cases, Option-cases, inl, inr, max,
}
use ticket_sandbox.Prelude.Text.{Text, text_beq, text_beq_iff}
use ticket_sandbox.Prelude.Json.{Json}
use ticket_sandbox.Achievements.Catalog.{AchievementTier}
use ticket_sandbox.Achievements.Records.{
  Time, User, AchievementEvent, UserAchievement, GrantOutcome, AchievementOperation, Store,
  find_award, find_operation, put_award, is_award, is_manual, key_taken,
}
use ticket_sandbox.Achievements.Grants.{
  GrantRequest, Receipt, repeated, remember, record_event, enqueue, clean_event, check_revision,
  is_no_higher, grant_outcome,
}
use ticket_sandbox.Achievements.Grants.Grant.{grant_new, raise_award, raised_award, grant_event}
use ticket_sandbox.Achievements.Grants.Cases.{with_event}

-- What stays when requests are answered.
abbrev pub IsSameCatalog : Store → Store → Type 0
IsSameCatalog s t = (t.users ≡ s.users) × (t.definitions ≡ s.definitions) × (t.tiers ≡ s.tiers)

abbrev pub receipt_row : Text → Text → Receipt → AchievementOperation
receipt_row k d r = record {
  key = k;
  request_digest = d;
  user_id = r.award.user_id;
  definition = r.award.definition;
  event = r.event;
  outcome = r.outcome;
}

-- A new receipt, of an award that stands in the rows.
pub record IsReceived (k d : Text) (s t : Store) (r : Receipt) : Type 0 where
  pub new : find_operation k s.operations ≡ none
  pub operations : t.operations ≡ s.operations ++ receipt_row k d r ∷ []
  pub stored : find_award r.award.user_id r.award.definition t.awards ≡ some r.award
  pub catalog : IsSameCatalog s t

pub find_award-put :
    (a : UserAchievement) (rows : List UserAchievement)
    → find_award a.user_id a.definition (put_award a rows) ≡ some a
unfolding find_award put_award is_award
find_award-put a [] = ground arith
find_award-put a (b ∷ rows) = elim (Bool-cases (is_award a.user_id a.definition b)) [
  | inl here ↦ ground arith
  | inr there ↦ ground (arith, find_award-put a rows)
]

remember-IsReceived :
    (k d : Text) (s t : Store) (a : UserAchievement) (o : GrantOutcome)
    (e : Option AchievementEvent) (r : Receipt)
    → remember k d s a o e ≡ ok (r, t)
    → find_award a.user_id a.definition s.awards ≡ some a
    → IsReceived k d s t r
unfolding remember
remember-IsReceived k d s t a o e r h stored = elim (Option-cases (find_operation k s.operations)) [
  | inr (old, found) ↦ ground arith
  | inl new ↦ record {
    new = new;
    operations = ground arith;
    stored = ground arith;
    catalog = (ground arith, ground arith, ground arith);
  }
]

IsReceived-from :
    (k d : Text) (s u t : Store) (r : Receipt)
    → u.operations ≡ s.operations
    → IsSameCatalog s u
    → IsReceived k d u t r
    → IsReceived k d s t r
IsReceived-from k d s u t r operations (users, definitions, tiers) v = record {
  new = rw (← operations) v.new;
  operations = rw (← operations) v.operations;
  stored = v.stored;
  catalog = (v.catalog.0 ∙ users, v.catalog.1 ∙ definitions, v.catalog.2 ∙ tiers);
}

-- An enqueued notification changes nothing else.
enqueue-same :
    (s : Store) (a : UserAchievement) (e : AchievementEvent)
    → IsSameCatalog s (enqueue s a e)
      × ((enqueue s a e).operations ≡ s.operations)
      × ((enqueue s a e).awards ≡ s.awards)
unfolding enqueue
enqueue-same s a e = ((ground arith, ground arith, ground arith), ground arith, ground arith)

pub record_event-same :
    (s t : Store) (a b : UserAchievement) (e : AchievementEvent) (actor : Option User)
    → record_event s a e actor ≡ ok (b, t)
    → (b ≡ with_event a e)
      × (t ≡ record s {
        awards = put_award (with_event a e) s.awards;
        next_event = s.next_event + 1;
      })
unfolding record_event
record_event-same s t a b e actor h =
    let (u, cleaned, h1) = >>=-eq-ok (clean_event a e actor) _ h in
    let (u, fresh, h2) = >>=-eq-ok (raise_if (key_taken e.idempotency_key s.awards) _) _ h1 in
    (ground arith, ground arith)

module _ (digest : Json → Text) where
  raise_award-IsReceived :
      (s t : Store) (q : GrantRequest) (tier : AchievementTier) (a : UserAchievement) (k d : Text)
      (now : Time) (r : Receipt)
      → raise_award digest s q tier a k d now ≡ ok (r, t)
      → IsReceived k d s t r
  unfolding raise_award
  raise_award-IsReceived s t q tier a k d now r h =
      let e = grant_event digest q tier a k s.next_event now in
      let (saved, h1, h2) = >>=-eq-ok (record_event s (raised_award a tier now) e q.actor) _ h in
      let (award, rows) =
        record_event-same s saved.1 (raised_award a tier now) saved.0 e q.actor h1 in
      let (catalog, operations, awards) = enqueue-same saved.1 saved.0 e in
      let stored : find_award saved.0.user_id saved.0.definition (enqueue saved.1 saved.0 e).awards
          ≡ some saved.0 =
        rw (awards) (
          rw (rows)
            (rw (award) (find_award-put (with_event (raised_award a tier now) e) s.awards))) in
      let received =
        remember-IsReceived k d (enqueue saved.1 saved.0 e) t saved.0 (grant_outcome a.active_tier)
          (some e) r h2 stored in
      IsReceived-from k d s saved.1 t r (rw rows refl) (rw rows (refl, refl, refl))
        (IsReceived-from k d saved.1 (enqueue saved.1 saved.0 e) t r operations catalog received)

  pub grant_new-IsReceived :
      (s t : Store) (q : GrantRequest) (tier : AchievementTier) (a : UserAchievement) (k d : Text)
      (now : Time) (r : Receipt)
      → grant_new digest s q tier a k d now ≡ ok (r, t)
      → IsReceived k d s t r
  unfolding grant_new
  grant_new-IsReceived s t q tier a k d now r h =
      let u = record s {
        awards = put_award a s.awards;
        next_award = max s.next_award (a.id + 1);
      } in
      let (checked, h1, h2) = >>=-eq-ok (check_revision q.expected_revision a) _ h in
      let stored = find_award-put a s.awards in
      IsReceived-from k d s u t r refl (refl, refl, refl)
        (elim (Bool-cases (not (is_manual q.source_type) && a.auto_grant_blocked)) [
          | inl blocked ↦
              remember-IsReceived k d u t a GrantOutcome.suppressed none r (ground arith) stored
          | inr free ↦ elim (Bool-cases (is_no_higher tier a.active_tier)) [
            | inl low ↦
                remember-IsReceived k d u t a GrantOutcome.no_op none r (ground arith) stored
            | inr high ↦ raise_award-IsReceived u t q tier a k d now r (ground arith)
          ]
        ])

find-snoc :
    (k : Text) (rows : List AchievementOperation) (o : AchievementOperation)
    → find_operation k rows ≡ none
    → text_beq o.key k ≡ true
    → find_operation k (rows ++ o ∷ []) ≡ some o
unfolding find_operation
find-snoc k [] o h e = ground arith
find-snoc k (p ∷ rows) o h e = ground (arith, find-snoc k rows o)

-- A request whose receipt is there is found to be repeated.
pub repeated-again :
    (k d : Text) (s t : Store) (r : Receipt)
    → IsReceived k d s t r
    → repeated k d t
      ≡ ok (some (record { award = r.award; outcome = GrantOutcome.duplicate; event = r.event }))
unfolding repeated
repeated-again k d s t r v =
    let found : find_operation k t.operations ≡ some (receipt_row k d r) =
      rw v.operations
        (find-snoc k s.operations (receipt_row k d r) v.new ((text_beq_iff k k).1 refl)) in
    let same = (text_beq_iff d d).1 refl in let stored = v.stored in ground arith
