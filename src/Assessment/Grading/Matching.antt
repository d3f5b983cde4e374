-- ===== src/Assessment/Grading/Matching.antt =====
-- `_grade_matching` of assessment/services/answer_grading.py.
use ticket_sandbox.Prelude.{
  ℕ, ◌<◌, ◌≡◌, ◌↔◌, refl, true, ◌&&◌, List, [], ◌∷◌, ok, length, count, count-le-length, arith,
  Bool-cases, Option-cases, inl, inr, ◌==◌,
}
use ticket_sandbox.Prelude.Sets.{
  contains, set, IsNodup, set_eq, all_distinct, all_distinct-IsNodup, set_eq-contains,
  contains-head, contains-tail,
}
use ticket_sandbox.Prelude.Dict.{Dict, get, keys, values, get-keys}
use ticket_sandbox.Prelude.Text.{Text, text_eq, text_beq_iff}
use ticket_sandbox.Assessment.Grading.{Gradable, item_keys, is_matched, grade_matches}
use ticket_sandbox.Assessment.Grading.Percentage.{
  hundred, percentage, percentage-all, percentage-eq-hundred, percentage-zero,
}
use ticket_sandbox.Assessment.Grading.Choice.{SameKeys}

is_matched-get :
    (submitted correct : Dict Text Text) (k : Text)
    → contains k (keys submitted) ≡ true
    → (is_matched submitted correct k ≡ true) ↔ (get submitted k ≡ get correct k)
unfolding is_matched
is_matched-get submitted correct k h =
    let (v, found) = get-keys submitted k h in
    elim (Option-cases (get correct k)) [
      | inl absent ↦ ground (arith, found, absent)
      | inr (w, e) ↦ ground (arith, found, e, text_beq_iff v w)
    ]

count-matched :
    (submitted correct : Dict Text Text) (ks : List Text)
    → ((k : Text) → contains k ks ≡ true → contains k (keys submitted) ≡ true)
    → (count (is_matched submitted correct) ks ≡ length ks)
      ↔ ((k : Text) → contains k ks ≡ true → get submitted k ≡ get correct k)
unfolding contains
count-matched submitted correct [] known = (λ h k m. cc, λ h. refl)
count-matched submitted correct (x ∷ xs) known =
    let here = is_matched-get submitted correct x (known x (contains-head x xs)) in
    let rest = count-matched submitted correct xs (λ k m. known k (contains-tail k x xs m)) in
    let few = count-le-length (is_matched submitted correct) xs in
    (
      λ h k m. elim (Bool-cases (k == x)) [
        | inl same ↦ rw ((text_beq_iff k x).0 same) (here.0 (ground (arith, few)))
        | inr other ↦ rest.0 (ground (arith, few)) k (ground (arith, other))
      ],
      λ h.
          ground (
            arith,
            here.1 (h x (contains-head x xs)),
            rest.1 (λ k m. h k (contains-tail k x xs m)),
          ),
    )

module _ (s : Gradable) (submitted : Dict Text Text) where
  abbrev left_keys : List Text
  left_keys = set (item_keys s.visible.left_items)

  abbrev right_keys : List Text
  right_keys = set (item_keys s.visible.right_items)

  abbrev matched : ℕ
  matched = count (is_matched submitted s.grading.matches) left_keys

  tests :
      (grade_matches s submitted ≡ ok hundred)
      ↔ ((set_eq (keys submitted) left_keys
            && (set_eq (values submitted) right_keys && all_distinct (values submitted)))
          ≡ true)
        × (percentage matched (length left_keys) ≡ hundred)
  unfolding grade_matches
  tests = ground arith

  all_matched :
      length left_keys < 20000
      → percentage matched (length left_keys) ≡ hundred
      → (0 < length left_keys) × (matched ≡ length left_keys)
  all_matched few e = ground (
    arith,
    percentage-eq-hundred matched (length left_keys) few e
        (count-le-length (is_matched submitted s.grading.matches) left_keys),
    percentage-zero matched,
  )

  -- A complete matching that agrees with the key scores 100.00.
  pub grade_matches-right :
      SameKeys (keys submitted) left_keys
      → SameKeys (values submitted) right_keys
      → IsNodup (values submitted)
      → 0 < length left_keys
      → ((k : Text) → contains k left_keys ≡ true → get submitted k ≡ get s.grading.matches k)
      → grade_matches s submitted ≡ ok hundred
  grade_matches-right lefts rights once some_left agrees = tests.1 (
    ground (
      arith,
      (set_eq-contains (keys submitted) left_keys).1 lefts,
      (set_eq-contains (values submitted) right_keys).1 rights,
      (all_distinct-IsNodup (values submitted)).1 once,
    ),
    rw ((count-matched submitted s.grading.matches left_keys (λ k. (lefts k).1)).1 agrees)
        (percentage-all (length left_keys) some_left),
  )

  -- With fewer than 20000 left items, a matching scores 100.00 exactly when it matches every left
  -- item, of which there is one at least, uses every right item once, and agrees with the key.
  pub grade_matches-hundred_iff :
      length (set (item_keys s.visible.left_items)) < 20000
      → (grade_matches s submitted ≡ ok hundred) ↔ (
          SameKeys (keys submitted) (set (item_keys s.visible.left_items))
          × SameKeys (values submitted) (set (item_keys s.visible.right_items))
          × IsNodup (values submitted)
          × (0 < length (set (item_keys s.visible.left_items)))
          × ((k : Text)
              → contains k (set (item_keys s.visible.left_items)) ≡ true
              → get submitted k ≡ get s.grading.matches k))
  grade_matches-hundred_iff few = (
    λ e.
        let passed = tests.0 e in
        let lefts = (set_eq-contains (keys submitted) left_keys).0 (ground (arith, passed.0)) in
        let share = all_matched few passed.1 in
        (
          lefts,
          (set_eq-contains (values submitted) right_keys).0 (ground (arith, passed.0)),
          (all_distinct-IsNodup (values submitted)).0 (ground (arith, passed.0)),
          share.0,
          (count-matched submitted s.grading.matches left_keys (λ k. (lefts k).1)).0 share.1,
        ),
    λ v. grade_matches-right v.0 v.1 v.2 v.3 v.4,
  )
