-- ===== src/Assessment/Validation/Accepted.antt =====
-- The configurations that assessment/question_validation.py accepts.
use ticket_sandbox.Prelude.{
  ℕ, ◌≤◌, ◌<◌, ◌≡◌, ◌↔◌, refl, false, not, List, [], ◌∷◌, map, ok, length, keep, is_empty, All,
  count-le-length, arith,
}
use ticket_sandbox.Prelude.Sets.{IsNodup, all_distinct-IsNodup}
use ticket_sandbox.Prelude.Text.{Text, text_eq}
use ticket_sandbox.Assessment.Constants.{QuestionType}
use ticket_sandbox.Assessment.Validation.{
  MarkedText, PairText, normalize_text, prepared, prepared_pairs, correct_count,
  check_correct_count, validate_answer_configuration, validate_matching_configuration,
  validate_ordering_configuration, validate_line_selection_configuration,
}

-- The number of correct entries that a question type asks for, of `total`.
abbrev pub RightCount : QuestionType → ℕ → ℕ → Type 0
RightCount QuestionType.single_choice right total = right ≡ 1
RightCount QuestionType.multiple_choice right total = (2 ≤ right) × (right < total)
RightCount _ right total = ⊥

check_correct_count-RightCount :
    (t : QuestionType) (os : List MarkedText)
    → (check_correct_count t (correct_count os) (length os) ≡ ok tt)
      ↔ RightCount t (correct_count os) (length os)
unfolding check_correct_count
check_correct_count-RightCount QuestionType.single_choice os = ground arith
check_correct_count-RightCount QuestionType.multiple_choice os =
    ground (arith, count-le-length (λ (o : MarkedText). o.is_correct) os)
check_correct_count-RightCount _ os = ground arith

-- A choice question is accepted exactly when at least two options are not blank, their texts
-- differ up to case and white space, and the number of correct ones fits the type: one for a
-- single choice, two or more but not all for a multiple one.
pub validate_answer_configuration_iff :
    (casefold : Text → Text) (t : QuestionType) (options : List MarkedText)
    → (validate_answer_configuration casefold t options ≡ ok tt) ↔ (
        (2 ≤ length (prepared options))
        × IsNodup (map (λ o. casefold o.text) (prepared options))
        × RightCount t (correct_count (prepared options)) (length (prepared options)))
unfolding validate_answer_configuration
validate_answer_configuration_iff casefold t options =
    let texts = map (λ (o : MarkedText). casefold o.text) (prepared options) in
    ground (arith, all_distinct-IsNodup texts, check_correct_count-RightCount t (prepared options))

-- A matching question is accepted exactly when at least two pairs are not blank on both sides, and
-- no left part and no right part repeats up to case and white space.
pub validate_matching_configuration_iff :
    (casefold : Text → Text) (pairs : List PairText)
    → (validate_matching_configuration casefold pairs ≡ ok tt) ↔ (
        (2 ≤ length (prepared_pairs pairs))
        × IsNodup (map (λ p. casefold p.left_text) (prepared_pairs pairs))
        × IsNodup (map (λ p. casefold p.right_text) (prepared_pairs pairs)))
unfolding validate_matching_configuration
validate_matching_configuration_iff casefold pairs = ground (
  arith,
  all_distinct-IsNodup (map (λ (p : PairText). casefold p.left_text) (prepared_pairs pairs)),
  all_distinct-IsNodup (map (λ (p : PairText). casefold p.right_text) (prepared_pairs pairs)),
)

-- A line question is accepted exactly when at least two lines are not blank, their texts differ,
-- and some of them are correct but not all.
pub validate_line_selection_configuration_iff :
    (casefold : Text → Text) (lines : List MarkedText)
    → (validate_line_selection_configuration casefold lines ≡ ok tt) ↔ (
        (2 ≤ length (prepared lines))
        × IsNodup (map (λ l. casefold l.text) (prepared lines))
        × (0 < correct_count (prepared lines))
        × (correct_count (prepared lines) < length (prepared lines)))
unfolding validate_line_selection_configuration
validate_line_selection_configuration_iff casefold lines =
    let texts = map (λ (o : MarkedText). casefold o.text) (prepared lines) in
    ground (
      arith,
      all_distinct-IsNodup texts,
      count-le-length (λ (o : MarkedText). o.is_correct) (prepared lines),
    )

-- Blank entries are left out of the counts, which so never exceed those of the whole list.
pub correct_count-prepared : (os : List MarkedText) → correct_count (prepared os) ≤ correct_count os
unfolding prepared
correct_count-prepared [] = omega arith
correct_count-prepared (o ∷ os) = ground (arith, correct_count-prepared os)

pub correct_count-prepared_same :
    (os : List MarkedText)
    → All (λ o. is_empty (normalize_text o.text) ≡ false) os
    → correct_count (prepared os) ≡ correct_count os
unfolding prepared
correct_count-prepared_same [] h = refl
correct_count-prepared_same (o ∷ os) h = ground (arith, correct_count-prepared_same os h.1)

pub length-prepared_pairs : (ps : List PairText) → length (prepared_pairs ps) ≤ length ps
unfolding prepared_pairs
length-prepared_pairs [] = omega arith
length-prepared_pairs (p ∷ ps) = ground (arith, length-prepared_pairs ps)

length-keep-map :
    (is : List Text) → length (keep (λ t. not (is_empty t)) (map normalize_text is)) ≤ length is
length-keep-map [] = omega arith
length-keep-map (i ∷ is) = ground (arith, length-keep-map is)

pub validate_ordering-length :
    (casefold : Text → Text) (items : List Text)
    → validate_ordering_configuration casefold items ≡ ok tt
    → 3 ≤ length items
unfolding validate_ordering_configuration
validate_ordering-length casefold items h = ground (arith, length-keep-map items)

-- The items of an ordering question that are not blank, normalised.
abbrev pub prepared_items : List Text → List Text
prepared_items items = keep (λ t. not (is_empty t)) (map normalize_text items)

-- An ordering question is accepted exactly when at least three items are not blank, and their texts
-- differ up to case and white space.
pub validate_ordering_configuration_iff :
    (casefold : Text → Text) (items : List Text)
    → (validate_ordering_configuration casefold items ≡ ok tt)
      ↔ ((3 ≤ length (prepared_items items)) × IsNodup (map casefold (prepared_items items)))
unfolding validate_ordering_configuration
validate_ordering_configuration_iff casefold items =
    ground (arith, all_distinct-IsNodup (map casefold (prepared_items items)))
