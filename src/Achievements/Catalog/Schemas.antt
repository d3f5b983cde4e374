-- ===== src/Achievements/Catalog/Schemas.antt =====
-- The table of achievements/services/catalog.py: the rule schemas, without titles and criteria.
use Prim.Native.String.{String}
use ticket_sandbox.Prelude.{ℕ, true, false, List, [], ◌∷◌}
use ticket_sandbox.Prelude.Text.{Text, text_eq, codes}
use ticket_sandbox.Prelude.Json.{Json, Fields}

pub data Rarity : Type 0 where
  bronze silver gold platinum : Rarity

pub data Kind : Type 0 where
  tiered fixed : Kind

pub data Applicability : Type 0 where
  both new_hire : Applicability

-- A row of `CATALOG`.
pub record Schema : Type 0 where
  pub evaluator_key : Text
  pub kind : Kind
  pub applicability : Applicability
  pub rule_version : ℕ
  pub tiers : List (Rarity × Json)

abbrev parameter_fields : List (String × Json) → Fields
parameter_fields [] = Fields.empty
parameter_fields ((name, value) ∷ rows) = Fields.field (codes name) value (parameter_fields rows)

abbrev parameters : List (String × Json) → Json
parameters rows = Json.object (parameter_fields rows)

abbrev family : String → Kind → Applicability → List (Rarity × Json) → Schema
family code kind applicability tiers = record {
  evaluator_key = codes code;
  kind = kind;
  applicability = applicability;
  rule_version = 1;
  tiers = tiers;
}

abbrev pub catalog : List Schema
catalog =
    family "training_program" Kind.tiered Applicability.new_hire (
      (Rarity.bronze, parameters (("automatic", Json.boolean true) ∷ []))
      ∷ (
        Rarity.silver,
        parameters (
            ("automatic", Json.boolean false)
            ∷ ("max_study_days", Json.number 11)
            ∷ ("score_gt", Json.number 90)
            ∷ []),
      )
      ∷ (
        Rarity.gold,
        parameters (
            ("automatic", Json.boolean false)
            ∷ ("max_study_days", Json.number 6)
            ∷ ("score_gt", Json.number 95)
            ∷ []),
      )
      ∷ (
        Rarity.platinum,
        parameters (
            ("automatic", Json.boolean false)
            ∷ ("max_study_days", Json.number 6)
            ∷ ("score_eq", Json.number 100)
            ∷ []),
      )
      ∷ [])
    ∷ family "sandbox_program" Kind.tiered Applicability.new_hire (
        (Rarity.bronze, parameters (("automatic", Json.boolean true) ∷ []))
        ∷ (
          Rarity.silver,
          parameters (("automatic", Json.boolean true) ∷ ("max_resets", Json.number 2) ∷ []),
        )
        ∷ (
          Rarity.gold,
          parameters (
              ("automatic", Json.boolean true)
              ∷ ("max_resets", Json.number 2)
              ∷ ("max_revisions", Json.number 2)
              ∷ ("answers_approved", Json.boolean true)
              ∷ []),
        )
        ∷ (
          Rarity.platinum,
          parameters (
              ("automatic", Json.boolean false)
              ∷ ("max_resets", Json.number 0)
              ∷ ("first_check", Json.boolean true)
              ∷ ("first_submission", Json.boolean true)
              ∷ []),
        )
        ∷ [])
    ∷ family "review_quality" Kind.tiered Applicability.both (
        (
          Rarity.bronze,
          parameters (
              ("automatic", Json.boolean true)
              ∷ ("minimum", Json.text (codes "80"))
              ∷ ("strict", Json.boolean false)
              ∷ []),
        )
        ∷ (
          Rarity.silver,
          parameters (
              ("automatic", Json.boolean true)
              ∷ ("minimum", Json.text (codes "90"))
              ∷ ("strict", Json.boolean false)
              ∷ []),
        )
        ∷ (
          Rarity.gold,
          parameters (
              ("automatic", Json.boolean true)
              ∷ ("minimum", Json.text (codes "95"))
              ∷ ("strict", Json.boolean true)
              ∷ []),
        )
        ∷ [])
    ∷ family "independent_speed" Kind.tiered Applicability.both (
        (
          Rarity.bronze,
          parameters (
              ("automatic", Json.boolean true)
              ∷ ("minimum", Json.text (codes "5"))
              ∷ ("strict", Json.boolean false)
              ∷ []),
        )
        ∷ (
          Rarity.silver,
          parameters (
              ("automatic", Json.boolean true)
              ∷ ("minimum", Json.text (codes "7"))
              ∷ ("strict", Json.boolean false)
              ∷ []),
        )
        ∷ (
          Rarity.gold,
          parameters (
              ("automatic", Json.boolean true)
              ∷ ("minimum", Json.text (codes "9"))
              ∷ ("strict", Json.boolean false)
              ∷ []),
        )
        ∷ (
          Rarity.platinum,
          parameters (
              ("automatic", Json.boolean true)
              ∷ ("minimum", Json.text (codes "10"))
              ∷ ("strict", Json.boolean true)
              ∷ []),
        )
        ∷ [])
    ∷ family "probation_new_hire" Kind.tiered Applicability.new_hire (
        (
          Rarity.bronze,
          parameters (("automatic", Json.boolean true) ∷ ("min_day", Json.number 61) ∷ []),
        )
        ∷ (
          Rarity.silver,
          parameters (
              ("automatic", Json.boolean true)
              ∷ ("min_day", Json.number 46)
              ∷ ("max_day", Json.number 60)
              ∷ []),
        )
        ∷ (
          Rarity.gold,
          parameters (
              ("automatic", Json.boolean true)
              ∷ ("min_day", Json.number 31)
              ∷ ("max_day", Json.number 45)
              ∷ []),
        )
        ∷ (
          Rarity.platinum,
          parameters (
              ("automatic", Json.boolean true)
              ∷ ("min_day", Json.number 1)
              ∷ ("max_day", Json.number 30)
              ∷ []),
        )
        ∷ [])
    ∷ family "sandbox_first_success" Kind.fixed Applicability.new_hire (
        (
          Rarity.bronze,
          parameters (("automatic", Json.boolean true) ∷ ("task_count", Json.number 1) ∷ []),
        )
        ∷ [])
    ∷ family "sandbox_five_successes" Kind.fixed Applicability.new_hire (
        (
          Rarity.silver,
          parameters (("automatic", Json.boolean true) ∷ ("task_count", Json.number 5) ∷ []),
        )
        ∷ [])
    ∷ family "sandbox_first_five_clean_answers" Kind.fixed Applicability.new_hire
        ((Rarity.gold, parameters (("automatic", Json.boolean true) ∷ [])) ∷ [])
    ∷ family "review_quality_streak" Kind.fixed Applicability.both
        ((Rarity.gold, parameters (("automatic", Json.boolean false) ∷ [])) ∷ [])
    ∷ family "independent_engineer" Kind.fixed Applicability.both
        ((Rarity.silver, parameters (("automatic", Json.boolean true) ∷ [])) ∷ [])
    ∷ family "clean_week" Kind.fixed Applicability.both
        ((Rarity.platinum, parameters (("automatic", Json.boolean false) ∷ [])) ∷ [])
    ∷ []

abbrev pub art_keys : List Text
art_keys =
    codes "generic"
    ∷ codes "training"
    ∷ codes "sandbox"
    ∷ codes "quality"
    ∷ codes "speed"
    ∷ codes "probation"
    ∷ codes "milestone"
    ∷ codes "independent"
    ∷ []

abbrev pub rarity_code : Rarity → Text
rarity_code Rarity.bronze = codes "bronze"
rarity_code Rarity.silver = codes "silver"
rarity_code Rarity.gold = codes "gold"
rarity_code Rarity.platinum = codes "platinum"

-- `RARITIES.index(rarity) + 1`
abbrev pub rank_of : Rarity → ℕ
rank_of Rarity.bronze = 1
rank_of Rarity.silver = 2
rank_of Rarity.gold = 3
rank_of Rarity.platinum = 4
