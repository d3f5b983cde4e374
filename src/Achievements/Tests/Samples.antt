-- ===== src/Achievements/Tests/Samples.antt =====
-- A digest, a store and requests.
use ticket_sandbox.Prelude.{
  true, false, [], ◌∷◌, ◌++◌, Option, none, some, ok, raised, if◌then◌else◌,
}
use ticket_sandbox.Prelude.Text.{Text, codes}
use ticket_sandbox.Prelude.Json.{Json, Items, Fields}
use ticket_sandbox.Achievements.Errors.{Checked}
use ticket_sandbox.Achievements.Catalog.{
  Rarity, Kind, Applicability, AchievementDefinition, AchievementTier,
}
use ticket_sandbox.Achievements.Records.{User, GrantOutcome, Store}
use ticket_sandbox.Achievements.Grants.{GrantRequest, RevokeRequest, Receipt}
use ticket_sandbox.Achievements.Grants.Dispute.{Correction}

unfoldable mutual
  pub spell : Json → Text
  spell Json.null = 1 ∷ []
  spell (Json.boolean b) = 2 ∷ (if b then 1 else 0) ∷ []
  spell (Json.number n) = 3 ∷ n ∷ []
  spell (Json.text s) = 4 ∷ s
  spell (Json.array js) = 5 ∷ spell_items js
  spell (Json.object fs) = 6 ∷ spell_fields fs

  spell_items : Items → Text
  spell_items Items.end = 7 ∷ []
  spell_items (Items.item j js) = spell j ++ spell_items js

  spell_fields : Fields → Text
  spell_fields Fields.empty = 8 ∷ []
  spell_fields (Fields.field k v fs) = k ++ spell v ++ spell_fields fs

abbrev pub digest : Json → Text
digest j = spell j

abbrev training : AchievementDefinition
training = record {
  id = 7;
  code = codes "training";
  secret = false;
  kind = Kind.tiered;
  active = true;
  applicability = Applicability.new_hire;
  evaluator_key = codes "training_program";
  rule_version = 1;
  art_key = codes "training";
}

abbrev pub bronze : AchievementTier
bronze = record {
  id = 71;
  definition = 7;
  code = codes "bronze";
  rank = 1;
  rarity = Rarity.bronze;
  parameters = Json.object (Fields.field (codes "automatic") (Json.boolean true) Fields.empty);
  rule_version = 1;
}

abbrev pub silver : AchievementTier
silver = record {
  id = 72;
  definition = 7;
  code = codes "silver";
  rank = 2;
  rarity = Rarity.silver;
  parameters = Json.object (
      Fields.field (codes "automatic") (Json.boolean false) (
        Fields.field (codes "max_study_days") (Json.number 11)
          (Fields.field (codes "score_gt") (Json.number 90) Fields.empty)));
  rule_version = 1;
}

abbrev pub empty_store : Store
empty_store = record {
  users = 1 ∷ 2 ∷ [];
  definitions = training ∷ [];
  tiers = bronze ∷ silver ∷ [];
  awards = [];
  operations = [];
  notifications = [];
  boundary = some 0;
  next_award = 1;
  next_event = 1;
}

abbrev staff : User
staff = record { id = 2; is_authenticated = true; is_staff = true }

abbrev pub earned : GrantRequest
earned = record {
  user_id = 1;
  definition_id = 7;
  tier_code = codes "bronze";
  evidence = Json.object Fields.empty;
  occurred_at = some 5;
  source_type = codes "roadmap_confirmation";
  source_ref = codes "9";
  operation_id = codes "source:9";
  actor = none;
  reason = [];
  expected_revision = none;
  rule_version = 1;
}

abbrev pub praised : GrantRequest
praised = record earned {
  tier_code = codes "silver";
  source_type = codes "manual";
  operation_id = codes "form:1";
  actor = some staff;
  reason = codes "well done";
  expected_revision = some 2;
}

abbrev pub earned_again : GrantRequest
earned_again = record earned { operation_id = codes "source:10" }

abbrev pub mistaken : RevokeRequest
mistaken = record {
  user_id = 1;
  definition_id = 7;
  actor = some staff;
  reason = codes "by mistake";
  operation_id = codes "form:2";
  expected_revision = some 3;
}

abbrev pub withdrawn_source : Correction
withdrawn_source = record {
  user_id = 1;
  metric_id = none;
  confirmation_revoked = true;
  source_id = Json.number 9;
  source_text = codes "9";
  definition_id = none;
  sandbox_invalid = false;
  reason = codes "changed";
}

-- The tables after a call that returns.
abbrev pub after {ℓ} : {A : Type ℓ} → Checked (A × Store) → Store
after (ok (a, s)) = s
after (raised e) = empty_store

abbrev pub answer : Checked (Receipt × Store) → Option GrantOutcome
answer (ok (r, s)) = some r.outcome
answer (raised e) = none
