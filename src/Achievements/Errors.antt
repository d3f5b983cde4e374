-- ===== src/Achievements/Errors.antt =====
-- What the services of achievements/services raise: one constructor for each message.
use ticket_sandbox.Prelude.{Outcome}

pub data AchievementError : Type 0 where
  -- catalog.py
  unknown_evaluator kind_mismatch unknown_art_key tier_mismatch : AchievementError
  -- grants.py
  permission_denied reason_required operation_id_required automatic_actor bad_date :
      AchievementError
  automatic_disabled operation_reused rule_changed revision_changed : AchievementError
  -- models.py, `AchievementEvent.clean`
  foreign_tier not_an_upgrade revoke_not_manual manual_without_reason : AchievementError
  -- a row that a query must find, and a unique column that is taken already,
  -- and an attribute of None
  does_not_exist integrity_error attribute_error : AchievementError
  -- notifications.py
  already_claimed claim_required : AchievementError

abbrev pub Checked {ℓ} : Type ℓ → Type ℓ
Checked A = Outcome AchievementError A
