-- ===== src/Sandbox/Progress/Counted.antt =====
-- Which tasks the loop of sandbox/services/progress.py counts as passed.
use ticket_sandbox.Prelude.{
  ℕ, ◌≡◌, refl, ◌∙◌, Bool, true, false, ◌&&◌, ◌||◌, List, [], ◌∷◌, keep, any, all, nat_beq, nat_eq,
  length, Bool-cases, inl, inr, arith,
}
use ticket_sandbox.Prelude.Sets.{contains, contains-head, contains-tail, IsNodup}
use ticket_sandbox.Prelude.Pigeonhole.{length-le-members}
use ticket_sandbox.Sandbox.Records.{TaskAttempt}
use ticket_sandbox.Sandbox.Evidence.{is_credit_attempt}
use ticket_sandbox.Sandbox.Progress.Loop.{
  Tally, tally, tally_attempt, tally_technical, tally_review, tally_answer, tally_feedback,
  add_once, has_success,
}
use ticket_sandbox.Sandbox.Progress.{insert_attempt, attempts_in_order, is_counted}

-- The user's first attempt at a task has passed.
abbrev pub has_passed : List TaskAttempt → ℕ → ℕ → Bool
has_passed attempts user task =
    any
      (λ a.
        nat_beq a.user_id user && nat_beq a.task.id task && is_credit_attempt a && has_success a)
      attempts

abbrev pub passes : ℕ → TaskAttempt → Bool
passes i a = nat_beq a.task.id i && has_success a

answer-completed_ids :
    (t : Tally) (a : TaskAttempt) → (tally_answer t a).completed_ids ≡ t.completed_ids
unfolding tally_answer
answer-completed_ids t a = ground arith

feedback-completed_ids :
    (t : Tally) (a : TaskAttempt) → (tally_feedback t a).completed_ids ≡ t.completed_ids
unfolding tally_feedback
feedback-completed_ids t a = ground arith

review-completed_ids :
    (b : Bool) (t : Tally) (a : TaskAttempt) → (tally_review b t a).completed_ids ≡ t.completed_ids
unfolding tally_review
review-completed_ids false t a = refl
review-completed_ids true t a =
    feedback-completed_ids (tally_answer t a) a ∙ answer-completed_ids t a

contains-add_once :
    (i j : ℕ) (ids : List ℕ) → contains i (add_once j ids) ≡ (nat_beq j i || contains i ids)
unfolding add_once contains
contains-add_once i j ids = elim (Bool-cases (contains j ids)) [
  | inl old ↦ elim (Bool-cases (nat_beq j i)) [
    | inl same ↦
        let eq : j ≡ i = ground arith in
        let known : contains i ids ≡ true = rw eq at old in ground arith
    | inr other ↦ ground arith
  ]
  | inr new ↦ ground arith
]

add_once-IsNodup : (j : ℕ) (ids : List ℕ) → IsNodup ids → IsNodup (add_once j ids)
unfolding add_once
add_once-IsNodup j ids v = elim (Bool-cases (contains j ids)) [
  | inl old ↦ rw old v
  | inr new ↦ rw new (new, v)
]

-- The tasks of the attempts that have passed.
attempt-passes :
    (i : ℕ) (t : Tally) (a : TaskAttempt)
    → contains i (tally_attempt t a).completed_ids ≡ (contains i t.completed_ids || passes i a)
unfolding tally_attempt tally_technical
attempt-passes i t a =
    let kept = review-completed_ids a.task.requires_manual_review (tally_technical t a) a in
    rw kept (elim (Bool-cases (has_success a)) [
      | inl success ↦ ground (arith, contains-add_once i a.task.id t.completed_ids)
      | inr failure ↦ ground arith
    ])

attempt-IsNodup :
    (t : Tally) (a : TaskAttempt)
    → IsNodup t.completed_ids
    → IsNodup (tally_attempt t a).completed_ids
unfolding tally_attempt tally_technical
attempt-IsNodup t a v =
    let kept = review-completed_ids a.task.requires_manual_review (tally_technical t a) a in
    rw kept (elim (Bool-cases (has_success a)) [
      | inl success ↦ rw success (add_once-IsNodup a.task.id t.completed_ids v)
      | inr failure ↦ rw failure v
    ])

pub tally-passes :
    (i : ℕ) (t : Tally) (attempts : List TaskAttempt)
    → contains i (tally t attempts).completed_ids
      ≡ (contains i t.completed_ids || any (passes i) attempts)
unfolding tally
tally-passes i t [] = ground arith
tally-passes i t (a ∷ attempts) =
    ground (arith, tally-passes i (tally_attempt t a) attempts, attempt-passes i t a)

pub tally-IsNodup :
    (t : Tally) (attempts : List TaskAttempt)
    → IsNodup t.completed_ids
    → IsNodup (tally t attempts).completed_ids
unfolding tally
tally-IsNodup t [] v = v
tally-IsNodup t (a ∷ attempts) v =
    tally-IsNodup (tally_attempt t a) attempts (attempt-IsNodup t a v)

any-insert_attempt :
    (p : TaskAttempt → Bool) (a : TaskAttempt) (attempts : List TaskAttempt)
    → any p (insert_attempt a attempts) ≡ (p a || any p attempts)
unfolding insert_attempt
any-insert_attempt p a [] = refl
any-insert_attempt p a (x ∷ xs) = ground (arith, any-insert_attempt p a xs)

pub any-in_order :
    (p : TaskAttempt → Bool) (attempts : List TaskAttempt)
    → any p (attempts_in_order attempts) ≡ any p attempts
unfolding attempts_in_order
any-in_order p [] = refl
any-in_order p (a ∷ attempts) =
    ground (arith, any-insert_attempt p a (attempts_in_order attempts), any-in_order p attempts)

-- The attempts that count, of a task of the queue and of another task.
pub any-counted :
    (user i : ℕ) (ids : List ℕ) (attempts : List TaskAttempt)
    → contains i ids ≡ true
    → any (passes i) (keep (is_counted user ids) attempts) ≡ has_passed attempts user i
unfolding is_counted
any-counted user i ids [] h = refl
any-counted user i ids (a ∷ attempts) h =
    let rest = any-counted user i ids attempts h in
    elim (Bool-cases (is_counted user ids a)) [
      | inl here ↦ ground arith
      | inr there ↦ elim (Bool-cases (nat_beq a.task.id i)) [
        | inl same ↦
            let eq : a.task.id ≡ i = ground arith in
            let known : contains a.task.id ids ≡ true = rw eq h in ground arith
        | inr other ↦ ground arith
      ]
    ]

pub any-uncounted :
    (user i : ℕ) (ids : List ℕ) (attempts : List TaskAttempt)
    → contains i ids ≡ false
    → any (passes i) (keep (is_counted user ids) attempts) ≡ false
unfolding is_counted
any-uncounted user i ids [] h = refl
any-uncounted user i ids (a ∷ attempts) h =
    let rest = any-uncounted user i ids attempts h in
    elim (Bool-cases (is_counted user ids a)) [
      | inr there ↦ ground arith
      | inl here ↦ elim (Bool-cases (nat_beq a.task.id i)) [
        | inl same ↦
            let eq : a.task.id ≡ i = ground arith in
            let known : contains a.task.id ids ≡ false = rw eq h in ground arith
        | inr other ↦ ground arith
      ]
    ]

-- A member of one list that is none of the other.
missing-member :
    (xs ys : List ℕ)
    → all (λ i. contains i xs) ys ≡ false
    → (i : ℕ) × (contains i ys ≡ true) × (contains i xs ≡ false)
missing-member xs [] h = cc
missing-member xs (y ∷ ys) h = elim (Bool-cases (contains y xs)) [
  | inr absent ↦ (y, contains-head y ys, absent)
  | inl present ↦
      let (i, here, there) = missing-member xs ys (ground arith) in
      (i, contains-tail i y ys here, there)
]

all-member :
    (xs ys : List ℕ) (i : ℕ)
    → all (λ i. contains i xs) ys ≡ true
    → contains i ys ≡ true
    → contains i xs ≡ true
unfolding contains
all-member xs [] i h m = cc
all-member xs (y ∷ ys) i h m = elim (Bool-cases (nat_beq i y)) [
  | inl same ↦ let eq : i ≡ y = ground arith in rw eq (ground arith)
  | inr other ↦ all-member xs ys i (ground arith) (ground arith)
]

-- A member of the longer list, or one of the shorter.
cons-inside :
    (y : ℕ) (xs ys : List ℕ)
    → contains y ys ≡ true
    → ((i : ℕ) → contains i xs ≡ true → contains i ys ≡ true)
    → (i : ℕ) → contains i (y ∷ xs) ≡ true
    → contains i ys ≡ true
unfolding contains
cons-inside y xs ys m inside i h = elim (Bool-cases (nat_beq i y)) [
  | inl same ↦ let eq : i ≡ y = ground arith in rw eq m
  | inr other ↦ inside i (ground arith)
]

-- A list without repetition inside another one has its length when it has its members.
pub full-members :
    (xs ys : List ℕ)
    → IsNodup xs
    → IsNodup ys
    → ((i : ℕ) → contains i xs ≡ true → contains i ys ≡ true)
    → nat_beq (length xs) (length ys) ≡ all (λ i. contains i xs) ys
full-members xs ys v w inside =
    let shorter = length-le-members xs ys v inside in
    elim (Bool-cases (all (λ i. contains i xs) ys)) [
      | inl every ↦
          let longer = length-le-members ys xs w (λ i. all-member xs ys i every) in ground arith
      | inr some_missing ↦
          let (y, here, there) = missing-member xs ys some_missing in
          let more = length-le-members (y ∷ xs) ys (there, v) (cons-inside y xs ys here inside) in
          ground arith
    ]
