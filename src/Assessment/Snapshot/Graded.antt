-- ===== src/Assessment/Snapshot/Graded.antt =====
-- Grading on payloads whose entries and key come from one numbering.
use mathlib.Core.List.{Perm}
use ticket_sandbox.Prelude.{
  ◌<◌, ◌≤◌, ◌≡◌, refl, ap, ◌∙◌, false, List, [], ◌∷◌, map, arith, length, ok, is_empty, some,
  length-map,
}
use ticket_sandbox.Prelude.Sets.{set, set-IsNodup, contains-set}
use ticket_sandbox.Prelude.Dict.{Dict, get, keys, values}
use ticket_sandbox.Prelude.Text.{Text, text_eq, text_beq, codes}
use ticket_sandbox.Assessment.Constants.{QuestionType}
use ticket_sandbox.Assessment.Validation.{MarkedText, PairText, correct_count}
use ticket_sandbox.Assessment.Grading.{
  ResponseValue, Gradable, item_keys, get_list, get_object, grade_choice, grade_matching,
  grade_ordering, grade_line_selection,
}
use ticket_sandbox.Assessment.Grading.Percentage.{hundred}
use ticket_sandbox.Assessment.Grading.Choice.{
  IsSelection, grade_choice-hundred_iff, grade_line_selection-hundred_iff,
}
use ticket_sandbox.Assessment.Grading.Matching.{grade_matches-right}
use ticket_sandbox.Assessment.Grading.Ordering.Exact.{grade_order_self}
use ticket_sandbox.Assessment.Snapshot.Keys.{keys_from, keys_from-IsNodup, length-keys_from}
use ticket_sandbox.Assessment.Snapshot.Numbering.{
  item_keys-number_marked, item_keys-number_texts, correct-among-shown, correct-IsNodup,
  length_correct, number_order-keys, keys-number_matches, values-number_matches,
  contains-item_keys-Perm,
}
use ticket_sandbox.Assessment.Snapshot.{
  Payloads, number_marked, number_texts, number_matches, number_order,
}

-- The response that states the grading payload itself, for each type of question.
abbrev pub key_response : QuestionType → Payloads → Dict Text ResponseValue
key_response QuestionType.matching p =
    (codes "matches", ResponseValue.object p.grading.matches) ∷ []
key_response QuestionType.ordering p =
    (codes "order", ResponseValue.list p.grading.correct_order) ∷ []
key_response _ p = (codes "selected_keys", ResponseValue.list p.grading.correct_keys) ∷ []

get_selected :
    (ks : List Text)
    → get_list ((codes "selected_keys", ResponseValue.list ks) ∷ []) (codes "selected_keys")
      ≡ some ks
unfolding get_list get text_beq
get_selected ks = refl

get_matches :
    (d : Dict Text Text)
    → get_object ((codes "matches", ResponseValue.object d) ∷ []) (codes "matches") ≡ some d
unfolding get_object get text_beq
get_matches d = refl

get_order :
    (ks : List Text)
    → get_list ((codes "order", ResponseValue.list ks) ∷ []) (codes "order") ≡ some ks
unfolding get_list get text_beq
get_order ks = refl

is_empty-length : (ks : List Text) → 0 < length ks → is_empty ks ≡ false
is_empty-length [] h = elim h [ ]
is_empty-length (k ∷ ks) h = refl

-- The keys of the correct entries are a selection among those shown.
correct-IsSelection :
    (p : Text) (os : List MarkedText)
    → 0 < correct_count os
    → IsSelection (item_keys (number_marked p 1 os).0) (number_marked p 1 os).1
correct-IsSelection p os h = record {
  chosen = is_empty-length (number_marked p 1 os).1 (omega (arith, length_correct p 1 os));
  distinct = correct-IsNodup p 1 os;
  known = λ k m. rw (item_keys-number_marked p 1 os) (correct-among-shown p 1 os k m);
}

abbrev pub snapshot_of : QuestionType → Payloads → Gradable
snapshot_of t p = record { question_type = t; visible = p.visible; grading = p.grading }

-- Any payloads whose options and correct keys come from one numbering can be answered.
pub choice_graded :
    (t : QuestionType) (os : List MarkedText) (p : Payloads)
    → p.visible.options ≡ (number_marked (codes "option-") 1 os).0
    → p.grading.correct_keys ≡ (number_marked (codes "option-") 1 os).1
    → 0 < correct_count os
    → (t ≡ QuestionType.single_choice → correct_count os ≡ 1)
    → grade_choice
        (snapshot_of t p)
        ((codes "selected_keys", ResponseValue.list p.grading.correct_keys) ∷ [])
      ≡ ok hundred
choice_graded t os p ev ek some_right one =
    (grade_choice-hundred_iff (snapshot_of t p)
        ((codes "selected_keys", ResponseValue.list p.grading.correct_keys) ∷ [])
        p.grading.correct_keys (get_selected p.grading.correct_keys)).1
      (
        rw (ev, ek) (correct-IsSelection (codes "option-") os some_right),
        λ e. rw ek (length_correct (codes "option-") 1 os ∙ one e),
        λ k. (λ m. m, λ m. m),
      )

pub lines_graded :
    (t : QuestionType) (os : List MarkedText) (p : Payloads)
    → p.visible.lines ≡ (number_marked (codes "line-") 1 os).0
    → p.grading.correct_keys ≡ (number_marked (codes "line-") 1 os).1
    → 0 < correct_count os
    → grade_line_selection
        (snapshot_of t p)
        ((codes "selected_keys", ResponseValue.list p.grading.correct_keys) ∷ [])
      ≡ ok hundred
lines_graded t os p ev ek some_right =
    (grade_line_selection-hundred_iff (snapshot_of t p)
        ((codes "selected_keys", ResponseValue.list p.grading.correct_keys) ∷ [])
        p.grading.correct_keys (get_selected p.grading.correct_keys)).1
      (rw (ev, ek) (correct-IsSelection (codes "line-") os some_right), λ k. (λ m. m, λ m. m))

pub order_graded :
    (t : QuestionType) (is : List Text) (p : Payloads)
    → p.grading.correct_order ≡ number_order 1 is
    → 3 ≤ length is
    → grade_ordering
        (snapshot_of t p)
        ((codes "order", ResponseValue.list p.grading.correct_order) ∷ [])
      ≡ ok hundred
unfolding grade_ordering
order_graded t is p e three =
    let order = p.grading.correct_order in
    let n : order ≡ keys_from (codes "item-") 1 (length is) = e ∙ number_order-keys 1 is in
    ground (
      arith,
      get_order order,
      grade_order_self order (rw n (keys_from-IsNodup (codes "item-") 1 (length is))) (
          omega (
            arith,
            ap (λ (ks : List Text). length ks) n,
            length-keys_from (codes "item-") 1 (length is),
          )),
    )

left_keys :
    (ps : List PairText)
    → item_keys (number_texts (codes "left-") 1 (map (λ r. r.left_text) ps))
      ≡ keys_from (codes "left-") 1 (length ps)
left_keys ps =
    item_keys-number_texts (codes "left-") 1 (map (λ r. r.left_text) ps)
    ∙ ap (keys_from (codes "left-") 1) (length-map (λ (r : PairText). r.left_text) ps)

right_keys :
    (ps : List PairText)
    → item_keys (number_texts (codes "right-") 1 (map (λ r. r.right_text) ps))
      ≡ keys_from (codes "right-") 1 (length ps)
right_keys ps =
    item_keys-number_texts (codes "right-") 1 (map (λ r. r.right_text) ps)
    ∙ ap (keys_from (codes "right-") 1) (length-map (λ (r : PairText). r.right_text) ps)

pub matches_graded :
    (t : QuestionType) (ps : List PairText) (p : Payloads)
    → p.visible.left_items ≡ number_texts (codes "left-") 1 (map (λ r. r.left_text) ps)
    → Perm p.visible.right_items (number_texts (codes "right-") 1 (map (λ r. r.right_text) ps))
    → p.grading.matches ≡ number_matches [] 1 ps
    → 2 ≤ length ps
    → grade_matching
        (snapshot_of t p)
        ((codes "matches", ResponseValue.object p.grading.matches) ∷ [])
      ≡ ok hundred
unfolding grade_matching
matches_graded t ps p el er em two =
    let n = length ps in
    let lefts : List Text = keys_from (codes "left-") 1 n in
    let left : set (item_keys p.visible.left_items) ≡ lefts =
      rw el (ap set (left_keys ps) ∙ set-IsNodup lefts (keys_from-IsNodup (codes "left-") 1 n)) in
    let ek : keys p.grading.matches ≡ lefts = ap keys em ∙ keys-number_matches ps in
    let ev : values p.grading.matches ≡ keys_from (codes "right-") 1 n =
      ap values em ∙ values-number_matches ps in
    ground (
      arith,
      get_matches p.grading.matches,
      grade_matches-right (snapshot_of t p) p.grading.matches (λ k. rw (ek, left) (λ m. m, λ m. m))
          (λ k.
            rw
              (
                ev,
                contains-set k (item_keys p.visible.right_items),
                contains-item_keys-Perm k _ _ er,
                right_keys ps,
              )
              (λ m. m, λ m. m))
          (rw ev (keys_from-IsNodup (codes "right-") 1 n))
          (rw left (omega (arith, length-keys_from (codes "left-") 1 n))) (λ k m. refl),
    )
