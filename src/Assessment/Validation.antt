-- ===== src/Assessment/Validation.antt =====
-- assessment/question_validation.py. `str.casefold` is a table of the Unicode standard, and enters
-- as the parameter `casefold`.
pub mod Accepted
use ticket_sandbox.Prelude.{
  ℕ, Bool, true, false, not, ◌&&◌, ◌||◌, List, [], ◌∷◌, ◌++◌, map, Outcome, ok, raised, ◌>>=◌, ◌>>◌,
  raise_if, length, count, keep, is_empty, ltb, leb, nat_beq, if◌then◌else◌,
}
use ticket_sandbox.Prelude.Sets.{all_distinct}
use ticket_sandbox.Prelude.Text.{Text, text_eq, is_space}
use ticket_sandbox.Assessment.Constants.{QuestionType, ServiceError, Checked}

-- `value.split()`, with the word that is being read.
unfoldable pub split_from : Text → Text → List Text
split_from word [] = if is_empty word then [] else word ∷ []
split_from word (c ∷ s) =
    let rest = split_from (if is_space c then [] else word ++ c ∷ []) s in
    if is_space c && not (is_empty word) then word ∷ rest else rest

-- `" ".join(words)`
unfoldable pub join : List Text → Text
join [] = []
join (w ∷ []) = w
join (w ∷ v ∷ ws) = w ++ 32 ∷ join (v ∷ ws)

unfoldable pub normalize_text : Text → Text
unfolding split_from join
normalize_text value = join (split_from [] value)

-- An option or a selectable line, as far as the checks read it.
pub record MarkedText : Type 0 where
  pub text : Text
  pub is_correct : Bool

pub record PairText : Type 0 where
  pub left_text : Text
  pub right_text : Text

abbrev pub normalize_marked : MarkedText → MarkedText
normalize_marked o = record o { text = normalize_text o.text }

-- The options whose normalised text is not empty.
unfoldable pub prepared : List MarkedText → List MarkedText
prepared os = keep (λ o. not (is_empty o.text)) (map normalize_marked os)

unfoldable pub prepared_pairs : List PairText → List PairText
prepared_pairs ps =
    keep (λ p. not (is_empty p.left_text && is_empty p.right_text))
      (map
        (λ p. record {
          left_text = normalize_text p.left_text;
          right_text = normalize_text p.right_text;
        })
        ps)

abbrev pub correct_count : List MarkedText → ℕ
correct_count os = count (λ o. o.is_correct) os

-- The tests on the number of correct options.
unfoldable pub check_correct_count : QuestionType → ℕ → ℕ → Checked (Unit {0})
check_correct_count QuestionType.single_choice right total =
    raise_if (not (nat_beq right 1)) ServiceError.one_correct_needed
check_correct_count QuestionType.multiple_choice right total = do
  raise_if (ltb right 2) ServiceError.two_correct_needed
  raise_if (nat_beq right total) ServiceError.one_wrong_needed
check_correct_count _ right total = raised ServiceError.unknown_question_type

module _ (casefold : Text → Text) where
  unfoldable pub validate_answer_configuration : QuestionType → List MarkedText → Checked (Unit {0})
  unfolding check_correct_count
  validate_answer_configuration answer_type options =
      let os = prepared options in
      do
        raise_if (ltb (length os) 2) ServiceError.two_options_needed
        raise_if (not (all_distinct (map (λ o. casefold o.text) os))) ServiceError.options_repeat
        check_correct_count answer_type (correct_count os) (length os)

  unfoldable pub validate_matching_configuration : List PairText → Checked (Unit {0})
  validate_matching_configuration pairs =
      let ps = prepared_pairs pairs in
      do
        raise_if (ltb (length ps) 2) ServiceError.two_pairs_needed
        raise_if (not (all_distinct (map (λ p. casefold p.left_text) ps))) ServiceError.left_repeats
        raise_if (not (all_distinct (map (λ p. casefold p.right_text) ps)))
            ServiceError.right_repeats

  unfoldable pub validate_ordering_configuration : List Text → Checked (Unit {0})
  validate_ordering_configuration items =
      let is = keep (λ t. not (is_empty t)) (map normalize_text items) in
      do
        raise_if (ltb (length is) 3) ServiceError.three_items_needed
        raise_if (not (all_distinct (map casefold is))) ServiceError.items_repeat

  unfoldable pub validate_line_selection_configuration : List MarkedText → Checked (Unit {0})
  validate_line_selection_configuration lines =
      let ls = prepared lines in
      do
        raise_if (ltb (length ls) 2) ServiceError.two_lines_needed
        raise_if (not (all_distinct (map (λ l. casefold l.text) ls))) ServiceError.lines_repeat
        raise_if (nat_beq (correct_count ls) 0) ServiceError.correct_line_needed
        raise_if (nat_beq (correct_count ls) (length ls)) ServiceError.wrong_line_needed
