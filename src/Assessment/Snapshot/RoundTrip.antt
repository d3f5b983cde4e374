-- ===== src/Assessment/Snapshot/RoundTrip.antt =====
-- A snapshot of assessment/services/question_snapshot.py, graded by answer_grading.py.
use ticket_sandbox.Prelude.{
  ◌<◌, ◌≡◌, refl, Bool, true, false, List, [], ◌∷◌, map, arith, if◌then◌else◌, count, ok, >>=-eq-ok,
  All, is_empty,
}
use ticket_sandbox.Prelude.Permuted.{count-Perm}
use ticket_sandbox.Prelude.Text.{Text, text_eq, codes}
use ticket_sandbox.Assessment.Constants.{QuestionType}
use ticket_sandbox.Assessment.Questions.{Question}
use ticket_sandbox.Assessment.Random.{Random, IsRandom}
use ticket_sandbox.Assessment.Validation.{
  MarkedText, PairText, normalize_text, correct_count, validate_answer_configuration,
  validate_matching_configuration, validate_ordering_configuration,
  validate_line_selection_configuration,
}
use ticket_sandbox.Assessment.Validation.Accepted.{
  validate_answer_configuration_iff, validate_line_selection_configuration_iff,
  validate_matching_configuration_iff, validate_ordering-length, correct_count-prepared,
  correct_count-prepared_same, length-prepared_pairs,
}
use ticket_sandbox.Assessment.Grading.{
  Response, ResponseValue, VisibleItem, grade_choice, grade_matching, grade_ordering,
  grade_line_selection, grade_by_type, grade_snapshot_answer,
}
use ticket_sandbox.Assessment.Grading.Percentage.{hundred}
use ticket_sandbox.Assessment.Snapshot.{
  Payloads, SnapshotData, gradable, number_texts, build_choice_payload, build_matching_payload,
  build_ordering_payload, build_line_selection_payload, build_payloads,
  build_question_snapshot_data, build_question_random,
}
use ticket_sandbox.Assessment.Snapshot.Graded.{
  key_response, snapshot_of, choice_graded, lines_graded, order_graded, matches_graded,
}

-- No option is blank: blank ones are shown and graded, and validation does not count them.
abbrev pub NoBlankOption : Question → Type 0
NoBlankOption q = All (λ o. is_empty (normalize_text o.text) ≡ false) q.answer_options

module _ (casefold : Text → Text) (random : Random) (laws : IsRandom random) where
  shuffled_count :
      (A : Type 0) (p : A → Bool) (g : random.Rng) (b : Bool) (xs : List A)
      → count p (if b then (random.shuffle A g xs).0 else xs) ≡ count p xs
  shuffled_count A p g true xs =
      count-Perm p (random.shuffle A g xs).0 xs (laws.shuffle_perm A g xs)
  shuffled_count A p g false xs = refl

  -- The correct options of an accepted choice question, before and after the shuffle.
  right_options :
      (t : QuestionType) (os : List MarkedText) (g : random.Rng) (b : Bool)
      → (t ≡ QuestionType.single_choice → All (λ o. is_empty (normalize_text o.text) ≡ false) os)
      → validate_answer_configuration casefold t os ≡ ok tt
      → let shown = if b then (random.shuffle MarkedText g os).0 else os in
        (0 < correct_count shown) × (t ≡ QuestionType.single_choice → correct_count shown ≡ 1)
  right_options QuestionType.single_choice os g b blank h =
      let same = shuffled_count MarkedText (λ o. o.is_correct) g b os in
      let valid = ((validate_answer_configuration_iff casefold _ os).0 h).2 in
      let unblank = correct_count-prepared_same os (blank refl) in
      (omega (arith, same, valid, unblank), λ e. omega (arith, same, valid, unblank))
  right_options QuestionType.multiple_choice os g b blank h =
      let same = shuffled_count MarkedText (λ o. o.is_correct) g b os in
      let valid = ((validate_answer_configuration_iff casefold _ os).0 h).2 in
      (omega (arith, same, valid.0, correct_count-prepared os), λ e. cc)
  right_options QuestionType.matching os g b blank h =
      absurd ((validate_answer_configuration_iff casefold _ os).0 h).2
  right_options QuestionType.ordering os g b blank h =
      absurd ((validate_answer_configuration_iff casefold _ os).0 h).2
  right_options QuestionType.line_selection os g b blank h =
      absurd ((validate_answer_configuration_iff casefold _ os).0 h).2
  right_options QuestionType.other os g b blank h =
      absurd ((validate_answer_configuration_iff casefold _ os).0 h).2

  choice_answerable :
      (q : Question) (g : random.Rng) (b : Bool) {pl : Payloads}
      → (q.answer_type ≡ QuestionType.single_choice → NoBlankOption q)
      → build_choice_payload casefold random q g b ≡ ok pl
      → grade_choice
          (snapshot_of q.answer_type pl)
          ((codes "selected_keys", ResponseValue.list pl.grading.correct_keys) ∷ [])
        ≡ ok hundred
  unfolding build_choice_payload
  choice_answerable q g b {pl} blank h =
      let options =
        if b then (random.shuffle MarkedText g q.answer_options).0 else q.answer_options in
      let (u, valid, built) =
        >>=-eq-ok (validate_answer_configuration casefold q.answer_type q.answer_options) _ h in
      let right = right_options q.answer_type q.answer_options g b blank valid in
      choice_graded q.answer_type options pl (ground arith) (ground arith) right.0 right.1

  lines_answerable :
      (t : QuestionType) (q : Question) {pl : Payloads}
      → build_line_selection_payload casefold random q ≡ ok pl
      → grade_line_selection
          (snapshot_of t pl)
          ((codes "selected_keys", ResponseValue.list pl.grading.correct_keys) ∷ [])
        ≡ ok hundred
  unfolding build_line_selection_payload
  lines_answerable t q {pl} h =
      let (u, valid, built) =
        >>=-eq-ok (validate_line_selection_configuration casefold q.selectable_lines) _ h in
      let some_right =
        ((validate_line_selection_configuration_iff casefold q.selectable_lines).0 valid).2 in
      lines_graded t q.selectable_lines pl (ground arith) (ground arith)
        (omega (arith, some_right, correct_count-prepared q.selectable_lines))

  order_answerable :
      (t : QuestionType) (q : Question) (g : random.Rng) {pl : Payloads}
      → build_ordering_payload casefold random q g ≡ ok pl
      → grade_ordering
          (snapshot_of t pl)
          ((codes "order", ResponseValue.list pl.grading.correct_order) ∷ [])
        ≡ ok hundred
  unfolding build_ordering_payload
  order_answerable t q g {pl} h =
      let (u, valid, built) =
        >>=-eq-ok (validate_ordering_configuration casefold q.ordering_items) _ h in
      order_graded t q.ordering_items pl (ground arith)
        (validate_ordering-length casefold q.ordering_items valid)

  matches_answerable :
      (t : QuestionType) (q : Question) (g : random.Rng) {pl : Payloads}
      → build_matching_payload casefold random q g ≡ ok pl
      → grade_matching
          (snapshot_of t pl)
          ((codes "matches", ResponseValue.object pl.grading.matches) ∷ [])
        ≡ ok hundred
  unfolding build_matching_payload
  matches_answerable t q g {pl} h =
      let ps = q.matching_pairs in
      let (u, valid, built) = >>=-eq-ok (validate_matching_configuration casefold ps) _ h in
      let rights = number_texts (codes "right-") 1 (map (λ (r : PairText). r.right_text) ps) in
      let shown : pl.visible.right_items ≡ (random.shuffle VisibleItem g rights).0 = ground arith in
      matches_graded t ps pl (ground arith) (rw shown (laws.shuffle_perm VisibleItem g rights))
        (ground arith)
        (omega (
          arith,
          ((validate_matching_configuration_iff casefold ps).0 valid).0,
          length-prepared_pairs ps,
        ))

  payloads_answerable :
      (t : QuestionType) (q : Question) (g : random.Rng) (b : Bool) {pl : Payloads}
      → t ≡ q.answer_type
      → (q.answer_type ≡ QuestionType.single_choice → NoBlankOption q)
      → build_payloads casefold random t q g b ≡ ok pl
      → grade_by_type t (snapshot_of q.answer_type pl) (key_response t pl) ≡ ok hundred
  unfolding build_payloads grade_by_type
  payloads_answerable QuestionType.single_choice q g b et blank h = choice_answerable q g b blank h
  payloads_answerable QuestionType.multiple_choice q g b et blank h =
      choice_answerable q g b blank h
  payloads_answerable QuestionType.matching q g b et blank h =
      matches_answerable q.answer_type q g h
  payloads_answerable QuestionType.ordering q g b et blank h = order_answerable q.answer_type q g h
  payloads_answerable QuestionType.line_selection q g b et blank h =
      lines_answerable q.answer_type q h
  payloads_answerable QuestionType.other q g b et blank h = cc

  -- The random generator being what its documentation says, whatever the seed and the shuffle: if a
  -- snapshot of a question is built, and a single choice has no blank option, then the response that
  -- states the snapshot's own key is graded, and scores 100.00.
  pub snapshot-answerable :
      (q : Question) (seed : Text) (b : Bool) (d : SnapshotData)
      → (q.answer_type ≡ QuestionType.single_choice → NoBlankOption q)
      → build_question_snapshot_data casefold random q seed b ≡ ok d
      → grade_snapshot_answer
          (gradable d)
          (Response.fields (key_response d.common.question_type d.payloads))
        ≡ ok hundred
  unfolding build_question_snapshot_data grade_snapshot_answer
  snapshot-answerable q seed b d blank h =
      let g = build_question_random casefold random seed q.id in
      let (pl, made, built) = >>=-eq-ok (build_payloads casefold random q.answer_type q g b) _ h in
      ground (arith, payloads_answerable q.answer_type q g b {pl = pl} refl blank made)
