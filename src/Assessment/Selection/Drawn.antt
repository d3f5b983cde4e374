-- ===== src/Assessment/Selection/Drawn.antt =====
-- The draw of assessment/services/question_selection.py on a pool that validation accepts.
use mathlib.Core.List.{Perm}
use mathlib.Core.List.Perm
use ticket_sandbox.Prelude.{
  ℕ, suc, ◌≤◌, ◌≡◌, refl, sym, ap, ◌∙◌, nat_eq, Bool, true, false, List, [], ◌∷◌, ◌++◌, map, length,
  length-append, All, All-append, All-weaken, All-all, all, any, sum, is_empty, arith, Bool-cases,
  inl, inr, if◌then◌else◌, ok,
}
use ticket_sandbox.Prelude.Sets.{contains, set, IsNodup}
use ticket_sandbox.Prelude.Permuted.{length-Perm, all-Perm}
use ticket_sandbox.Prelude.Dict.{Dict, get, keys}
use ticket_sandbox.Prelude.Text.{Text}
use ticket_sandbox.Assessment.Constants.{SupportLevel}
use ticket_sandbox.Assessment.Questions.{Question, Skill}
use ticket_sandbox.Assessment.Random.{Random, IsRandom}
use ticket_sandbox.Assessment.Blueprint.{
  ExamBlueprint, BlueprintSkillQuota, PoolStatus, family_ids, is_eligible, pool, quota_status,
  question_count, find_shortages, validate_blueprint_question_pool,
}
use ticket_sandbox.Assessment.Selection.{
  listed, group_by_family, sorted, draw_choice, choose_questions, select_for_quota,
  select_for_quotas, select_questions_for_blueprint,
}
use ticket_sandbox.Assessment.Selection.Families.{
  IsGrouped, group-IsGrouped, empty-IsGrouped, keys-group-IsNodup, contains-sorted, sorted-IsNodup,
  length-families,
}

-- A quota's pool is large enough.
abbrev pub IsSufficient : List Question → SupportLevel → BlueprintSkillQuota → Type 0
IsSufficient bank level quota =
    quota.question_count ≤ length (set (family_ids (pool bank level quota.skill)))

-- What is drawn for one quota: as many questions as it asks for, eligible, of different families.
pub record IsDrawn (level : SupportLevel) (quota : BlueprintSkillQuota) (qs : List Question)
    : Type 0 where
  pub counted : length qs ≡ quota.question_count
  pub eligible : All (λ q. is_eligible level quota.skill q ≡ true) qs
  pub families : IsNodup (family_ids qs)

pool-eligible :
    (bank : List Question) (level : SupportLevel) (skill : Skill)
    → All (λ q. is_eligible level skill q ≡ true) (pool bank level skill)
unfolding pool
pool-eligible [] level skill = tt
pool-eligible (q ∷ bank) level skill = elim (Bool-cases (is_eligible level skill q)) [
  | inl fits ↦ rw fits (fits, pool-eligible bank level skill)
  | inr no_fit ↦ rw no_fit (pool-eligible bank level skill)
]

length-family_ids : (qs : List Question) → length (family_ids qs) ≡ length qs
length-family_ids [] = refl
length-family_ids (q ∷ qs) = ap suc (length-family_ids qs)

module _ (random : Random) (laws : IsRandom random) where
  -- A choice from a family that is not empty.
  draw_choice-total :
      (P : Question → Type 0) (g : random.Rng) (qs : List Question)
      → is_empty qs ≡ false
      → All P qs
      → (r : Question × random.Rng) × (draw_choice random g qs ≡ ok r) × P r.0
  unfolding draw_choice
  draw_choice-total P g [] h all_p = cc
  draw_choice-total P g (q ∷ qs) h all_p =
      (random.choice Question g q qs, refl, laws.choice_member Question P g q qs all_p)

  choose_questions-total :
      (P : Question → Type 0) (d : Dict ℕ (List Question)) (g : random.Rng) (ids : List ℕ)
      → IsGrouped P d
      → All (λ i. contains i (keys d) ≡ true) ids
      → (r : List Question × random.Rng) × (choose_questions random d g ids ≡ ok r)
        × All P r.0
        × (family_ids r.0 ≡ ids)
  unfolding choose_questions
  choose_questions-total P d g [] grouped known = (([], g), refl, tt, refl)
  choose_questions-total P d g (i ∷ ids) grouped known =
      let (q, drawn, good) =
        draw_choice-total (λ q. P q × (q.family.id ≡ i)) g (listed (get d i))
          (grouped.filled i known.0) (grouped.members i) in
      let (rest, chosen, fine, same) = choose_questions-total P d q.1 ids grouped known.1 in
      ((q.0 ∷ rest.0, rest.1), rw (drawn, chosen) refl, (good.0, fine), cc (good.1))

  -- A quota with enough families is drawn in full, without an exception of `random`.
  pub select_for_quota-total :
      (bank : List Question) (level : SupportLevel) (g : random.Rng) (quota : BlueprintSkillQuota)
      → IsSufficient bank level quota
      → (r : List Question × random.Rng) × (select_for_quota random bank level g quota ≡ ok r)
        × IsDrawn level quota r.0
  unfolding select_for_quota
  select_for_quota-total bank level g quota enough =
      let P : Question → Type 0 = λ q. is_eligible level quota.skill q ≡ true in
      let qs = pool bank level quota.skill in
      let d = group_by_family [] qs in
      let ids = sorted (keys d) in
      let fits : quota.question_count ≤ length ids = omega (arith, enough, length-families qs) in
      let drawn = random.sample g ids quota.question_count in
      let (r, chosen, good, same) =
        choose_questions-total P d drawn.1 drawn.0
          (group-IsGrouped P [] qs (pool-eligible bank level quota.skill) (empty-IsGrouped P))
          (All-weaken _ _ drawn.0 (λ i m. sym (contains-sorted i (keys d)) ∙ m)
            (laws.sample_members g ids quota.question_count fits)) in
      (
        r,
        ground (arith, chosen, fits),
        record {
          counted = omega (
            arith,
            length-family_ids r.0,
            ap (λ (is : List ℕ). length is) same,
            laws.sample_length g ids quota.question_count fits,
          );
          eligible = good;
          families = rw same (
              laws.sample_distinct g ids quota.question_count fits
                (sorted-IsNodup (keys d) (keys-group-IsNodup [] qs tt)));
        },
      )

  abbrev serves : SupportLevel → List BlueprintSkillQuota → Question → Bool
  serves level quotas q = any (λ quota. is_eligible level quota.skill q) quotas

  pub select_for_quotas-total :
      (bank : List Question) (level : SupportLevel) (g : random.Rng)
      (quotas : List BlueprintSkillQuota)
      → All (IsSufficient bank level) quotas
      → (r : List Question × random.Rng) × (select_for_quotas random bank level g quotas ≡ ok r)
        × (length r.0 ≡ sum (map (λ quota. quota.question_count) quotas))
        × All (λ q. serves level quotas q ≡ true) r.0
  unfolding select_for_quotas
  select_for_quotas-total bank level g [] h = (([], g), refl, refl, tt)
  select_for_quotas-total bank level g (quota ∷ quotas) h =
      let (r, first, drawn) = select_for_quota-total bank level g quota h.0 in
      let (s, others, counted, good) = select_for_quotas-total bank level r.1 quotas h.1 in
      (
        (r.0 ++ s.0, s.1),
        rw (first, others) refl,
        omega (arith, length-append r.0 s.0, counted, drawn.counted),
        All-append (λ q. serves level (quota ∷ quotas) q ≡ true) r.0 s.0
            (All-weaken _ _ r.0 (λ q e. ground arith) drawn.eligible)
            (All-weaken _ _ s.0 (λ q e. ground arith) good),
      )

shuffled-Perm :
    (random : Random)
    → IsRandom random
    → (b : Bool) (g : random.Rng) (qs : List Question)
    → Perm (if b then (random.shuffle Question g qs).0 else qs) qs
shuffled-Perm random laws true g qs = laws.shuffle_perm Question g qs
shuffled-Perm random laws false g qs = Perm.refl qs

-- What validation accepts: some quota, and enough families for each.
accepted :
    (bank : List Question) (level : SupportLevel) (quotas : List BlueprintSkillQuota)
    → is_empty (find_shortages (map (quota_status bank level) quotas)) ≡ true
    → All (IsSufficient bank level) quotas
unfolding find_shortages quota_status
accepted bank level [] h = tt
accepted bank level (quota ∷ quotas) h = ground (arith, accepted bank level quotas)

-- The random generator being what its documentation says: if validation accepts the blueprint's
-- pool, the selection returns, with exactly as many questions as the quotas ask for, each of the
-- blueprint's level, active, and of an active family, skill and topic of some quota.
pub select-total :
    (random : Random)
    → IsRandom random
    → (bank : List Question) (b : ExamBlueprint) (seed : Text) (status : List PoolStatus)
    → validate_blueprint_question_pool bank b ≡ ok status
    → (qs : List Question) × (select_questions_for_blueprint random bank b seed ≡ ok qs)
      × (length qs ≡ question_count b)
      × (all (λ q. any (λ quota. is_eligible b.level quota.skill q) b.skill_quotas) qs ≡ true)
unfolding select_questions_for_blueprint question_count
select-total random laws bank b seed status valid =
    let enough : All (IsSufficient bank b.level) b.skill_quotas =
      accepted bank b.level b.skill_quotas
        (unfold validate_blueprint_question_pool in ground arith) in
    let (r, drawn, counted, good) =
      select_for_quotas-total random laws bank b.level (random.seeded seed) b.skill_quotas enough in
    let good_all =
      All-all (λ q. any (λ quota. is_eligible b.level quota.skill q) b.skill_quotas) r.0 good in
    let qs = if b.shuffle_questions then (random.shuffle Question r.1 r.0).0 else r.0 in
    let perm = shuffled-Perm random laws b.shuffle_questions r.1 r.0 in
    (
      qs,
      rw (valid, drawn) refl,
      length-Perm qs r.0 perm ∙ counted,
      all-Perm (λ q. any (λ quota. is_eligible b.level quota.skill q) b.skill_quotas) qs r.0 perm
          good_all,
    )
