-- ===== src/Achievements/Notifications/Shown.antt =====
-- What the feed of achievements/services/notifications.py shows.
use ticket_sandbox.Prelude.{
  ℕ, zero, suc, ◌≤◌, ◌≡◌, ◌≢◌, ◌⊎◌, refl, ap, Bool, true, false, not, List, [], ◌∷◌, Option, none,
  some, ok, >>=-eq-ok, All, find, find-passes, keep, take, length, leb, nat_beq, arith, Bool-cases,
  Option-cases, inl, inr,
}
use ticket_sandbox.Achievements.Catalog.{AchievementDefinition, AchievementTier}
use ticket_sandbox.Achievements.Records.{
  Time, AchievementEvent, UserAchievement, AchievementNotification, Store,
}
use ticket_sandbox.Achievements.Grants.{or_missing}
use ticket_sandbox.Achievements.Notifications.{
  find_event, is_owned, owned, is_visible, is_shown, is_read, Item, item, item_of, page_size,
}
use ticket_sandbox.Achievements.Notifications.Feed.{
  is_claimable, insert_by_event, by_event, Feed, items_of, unread, feed,
}

module _ {ℓ κ} {A : Type ℓ} (P : A → Type κ) where
  keep-All : (p : A → Bool) (xs : List A) → All P xs → All P (keep p xs)
  keep-All p [] h = tt
  keep-All p (x ∷ xs) h = elim (Bool-cases (p x)) [
    | inl here ↦ rw here (h.0, keep-All p xs h.1)
    | inr there ↦ rw there (keep-All p xs h.1)
  ]

  take-All : (n : ℕ) (xs : List A) → All P xs → All P (take n xs)
  take-All zero xs h = tt
  take-All (suc n) [] h = tt
  take-All (suc n) (x ∷ xs) h = (h.0, take-All n xs h.1)

All-both {ℓ κ μ} :
    {A : Type ℓ} (P : A → Type κ) (Q : A → Type μ) (xs : List A)
    → All P xs
    → All Q xs
    → All (λ x. P x × Q x) xs
All-both P Q [] p q = tt
All-both P Q (x ∷ xs) p q = ((p.0, q.0), All-both P Q xs p.1 q.1)

length-take {ℓ} : {A : Type ℓ} (n : ℕ) (xs : List A) → length (take n xs) ≤ n
length-take zero xs = omega arith
length-take (suc n) [] = omega arith
length-take (suc n) (x ∷ xs) = omega (arith, length-take n xs)

keep-passing {ℓ} : {A : Type ℓ} (p : A → Bool) (xs : List A) → All (λ x. p x ≡ true) (keep p xs)
keep-passing p [] = tt
keep-passing p (x ∷ xs) = elim (Bool-cases (p x)) [
  | inl here ↦ rw here (here, keep-passing p xs)
  | inr there ↦ rw there (keep-passing p xs)
]

module _ {κ} (P : AchievementNotification → Type κ) where
  insert_by_event-All :
      (n : AchievementNotification) (rows : List AchievementNotification)
      → P n
      → All P rows
      → All P (insert_by_event n rows)
  unfolding insert_by_event
  insert_by_event-All n [] v h = (v, tt)
  insert_by_event-All n (m ∷ rows) v h = elim (Bool-cases (leb n.event m.event)) [
    | inl before ↦ rw before (v, h)
    | inr behind ↦ rw behind (h.0, insert_by_event-All n rows v h.1)
  ]

  by_event-All : (rows : List AchievementNotification) → All P rows → All P (by_event rows)
  unfolding by_event
  by_event-All [] h = tt
  by_event-All (n ∷ rows) h = insert_by_event-All n (by_event rows) h.0 (by_event-All rows h.1)

-- An item that the user may see: of the user's own award, under an active definition, which is not
-- secret or of which the user has a tier.
pub record IsShown (s : Store) (user : ℕ) (i : Item) : Type 0 where
  pub award : UserAchievement
  pub event : AchievementEvent
  pub definition : AchievementDefinition
  pub found : find_event i.event_id s.awards ≡ some (award, event)
  pub defined : find (λ d. nat_beq d.id award.definition) s.definitions ≡ some definition
  pub own : award.user_id ≡ user
  pub active : definition.active ≡ true
  pub known : (definition.secret ≡ false) ⊎ (award.active_tier ≢ none)

or_missing-some {ℓ} : {A : Type ℓ} (o : Option A) (a : A) → or_missing o ≡ ok a → o ≡ some a
or_missing-some none a h = cc
or_missing-some (some b) a h = cc

find_event-id :
    (id : ℕ) (rows : List UserAchievement) (a : UserAchievement) (e : AchievementEvent)
    → find_event id rows ≡ some (a, e)
    → nat_beq e.id id ≡ true
unfolding find_event
find_event-id id [] a e h = cc
find_event-id id (b ∷ rows) a e h = elim (Option-cases (find (λ x. nat_beq x.id id) b.events)) [
  | inl absent ↦ find_event-id id rows a e (ground arith)
  | inr (x, found) ↦
      let passed = find-passes (λ x. nat_beq x.id id) b.events found in
      let same : x ≡ e = ground arith in rw (← same) passed
]

is_shown-parts :
    (d : AchievementDefinition) (t : Option AchievementTier)
    → is_shown (some d) t ≡ true
    → (d.active ≡ true) × ((d.secret ≡ false) ⊎ (t ≢ none))
is_shown-parts d none h = (ground arith, inl (ground arith))
is_shown-parts d (some t) h = (ground arith, inr (λ e. cc))

item-IsShown :
    (s : Store) (user : ℕ) (n : AchievementNotification) (i : Item)
    → is_owned s user n ≡ true
    → is_visible s n ≡ true
    → item s n ≡ ok i
    → IsShown s user i
unfolding item item_of is_owned is_visible
item-IsShown s user n i mine seen h =
    let (p, h1, h2) = >>=-eq-ok (or_missing (find_event n.event s.awards)) _ h in
    let (d, h3, h4) =
      >>=-eq-ok (or_missing (find (λ d. nat_beq d.id p.0.definition) s.definitions)) _ h2 in
    let found = or_missing-some (find_event n.event s.awards) p h1 in
    let defined = or_missing-some (find (λ d. nat_beq d.id p.0.definition) s.definitions) d h3 in
    let same : p.1.id ≡ n.event =
      let passed = find_event-id n.event s.awards p.0 p.1 found in ground arith in
    let shown : i.event_id ≡ p.1.id = ground arith in
    let seen_here : is_shown (some d) p.0.active_tier ≡ true = ground arith in
    let (active, known) = is_shown-parts d p.0.active_tier seen_here in
    record {
      award = p.0;
      event = p.1;
      definition = d;
      found = rw (shown) (rw (same) found);
      defined = defined;
      own = ground arith;
      active = active;
      known = known;
    }

items_of-IsShown :
    (s : Store) (user : ℕ) (rows : List AchievementNotification) (is : List Item)
    → All (λ n. (is_owned s user n ≡ true) × (is_visible s n ≡ true)) rows
    → items_of s rows ≡ ok is
    → All (IsShown s user) is × (length is ≡ length rows)
unfolding items_of
items_of-IsShown s user [] [] v h = (tt, refl)
items_of-IsShown s user [] (i ∷ is) v h = cc
items_of-IsShown s user (n ∷ rows) is v h =
    let (i, h1, h2) = >>=-eq-ok (item s n) _ h in
    let (js, h3, h4) = >>=-eq-ok (items_of s rows) _ h2 in
    let (shown, count) = items_of-IsShown s user rows js v.1 h3 in
    let same : is ≡ i ∷ js = ground arith in
    rw same ((item-IsShown s user n i v.0.0 v.0.1 h1, shown), ap suc count)

unread-shown :
    (s : Store) (user : ℕ)
    → All (λ n. (is_owned s user n ≡ true) × (is_visible s n ≡ true)) (unread s user)
unfolding unread owned
unread-shown s user =
    let mine =
      keep-All (λ n. is_owned s user n ≡ true) (λ n. not (is_read n)) (owned s user)
        (keep-passing (is_owned s user) s.notifications) in
    All-both (λ n. is_owned s user n ≡ true) (λ n. is_visible s n ≡ true) (unread s user)
      (keep-All (λ n. is_owned s user n ≡ true) (is_visible s) _ mine)
      (keep-passing (is_visible s) (keep (λ n. not (is_read n)) (owned s user)))

-- A feed has a page of items at most, and each is one that its user may see.
pub feed-IsShown :
    (s : Store) (user : ℕ) (now : Time) (f : Feed)
    → feed s user now ≡ ok f
    → All (IsShown s user) f.items × (length f.items ≤ page_size)
unfolding feed
feed-IsShown s user now f h =
    let P = λ (n : AchievementNotification). (is_owned s user n ≡ true) × (is_visible s n ≡ true) in
    let available = keep (is_claimable now) (unread s user) in
    let rows = take page_size (by_event available) in
    let (is, h1, h2) = >>=-eq-ok (items_of s rows) _ h in
    let (shown, count) =
      items_of-IsShown s user rows is
        (take-All P page_size (by_event available) (
          by_event-All P available
            (keep-All P (is_claimable now) (unread s user) (unread-shown s user))))
        h1 in
    let same : f.items ≡ is = ground arith in
    let fits = length-take page_size (by_event available) in rw same (shown, omega arith)
