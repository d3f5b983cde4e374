-- ===== src/Achievements/Catalog.antt =====
-- achievements/services/catalog.py: the rule schemas that the server owns, and the checks of a
-- definition and of a tier against them. Titles and criteria are texts for display.
pub mod Schemas
pub use Schemas.{Rarity, Kind, Applicability, Schema, catalog, art_keys, rarity_code, rank_of}
use Prim.Native.String.{String}
use ticket_sandbox.Prelude.{
  ℕ, Bool, true, false, not, ◌&&◌, List, [], ◌∷◌, Option, none, some, raised, ◌>>◌, raise_if, find,
  nat_beq,
}
use ticket_sandbox.Prelude.Sets.{contains}
use ticket_sandbox.Prelude.Text.{Text, text_eq, text_beq, codes}
use ticket_sandbox.Prelude.Json.{Json, Fields, json_eq}
use ticket_sandbox.Achievements.Errors.{AchievementError, Checked}

pub record AchievementDefinition : Type 0 where
  pub id : ℕ
  pub code : Text
  pub secret : Bool
  pub kind : Kind
  pub active : Bool
  pub applicability : Applicability
  pub evaluator_key : Text
  pub rule_version : ℕ
  pub art_key : Text

pub record AchievementTier : Type 0 where
  pub id : ℕ
  pub definition : ℕ
  pub code : Text
  pub rank : ℕ
  pub rarity : Rarity
  pub parameters : Json
  pub rule_version : ℕ

abbrev kind_beq : Kind → Kind → Bool
kind_beq Kind.tiered Kind.tiered = true
kind_beq Kind.fixed Kind.fixed = true
kind_beq _ _ = false

abbrev applicability_beq : Applicability → Applicability → Bool
applicability_beq Applicability.both Applicability.both = true
applicability_beq Applicability.new_hire Applicability.new_hire = true
applicability_beq _ _ = false

-- `SCHEMAS.get(key)`
unfoldable pub find_schema : Text → List Schema → Option Schema
unfolding text_beq
find_schema key rows = find (λ r. text_beq r.evaluator_key key) rows

unfoldable pub check_definition : AchievementDefinition → Option Schema → Checked (Unit {0})
check_definition d none = raised AchievementError.unknown_evaluator
check_definition d (some r) = do
  raise_if (not (nat_beq d.rule_version r.rule_version)) AchievementError.unknown_evaluator
  raise_if (not (kind_beq d.kind r.kind && applicability_beq d.applicability r.applicability))
      AchievementError.kind_mismatch
  raise_if (not (contains d.art_key art_keys)) AchievementError.unknown_art_key

unfoldable pub validate_definition : AchievementDefinition → Checked (Unit {0})
unfolding check_definition
validate_definition d = check_definition d (find_schema d.evaluator_key catalog)

-- `next((t for t in schema["tiers"] if t[0] == code), None)`
unfoldable pub find_tier : Text → List (Rarity × Json) → Option (Rarity × Json)
unfolding text_beq
find_tier code rows = find (λ r. text_beq (rarity_code r.0) code) rows

unfoldable pub tier_matches :
    AchievementDefinition → AchievementTier → Option (Rarity × Json) → Bool
unfolding json_eq text_beq
tier_matches d t none = false
tier_matches d t (some (rarity, required)) =
    json_eq t.parameters required
    && text_beq (rarity_code t.rarity) (rarity_code rarity)
    && nat_beq t.rank (rank_of rarity)
    && nat_beq t.rule_version d.rule_version

abbrev schema_tiers : Option Schema → List (Rarity × Json)
schema_tiers none = []
schema_tiers (some r) = r.tiers

unfoldable pub validate_tier : AchievementDefinition → AchievementTier → Checked (Unit {0})
unfolding validate_definition find_tier tier_matches
validate_tier d t = do
  validate_definition d
  raise_if
      (not
        (tier_matches d t (find_tier t.code (schema_tiers (find_schema d.evaluator_key catalog)))))
      AchievementError.tier_mismatch
