-- ===== src/Assessment/Questions.antt =====
-- The question bank of assessment/models.py: the columns that the services read. A question's
-- options, pairs, items, lines and blocks are listed as the queries order them, by `order` and `id`.
use ticket_sandbox.Prelude.{ℕ, Bool, List}
use ticket_sandbox.Prelude.Text.{Text}
use ticket_sandbox.Assessment.Constants.{SupportLevel, QuestionType, QuestionStatus}
use ticket_sandbox.Assessment.Validation.{MarkedText, PairText}

pub record Topic : Type 0 where
  pub name : Text
  pub slug : Text
  pub is_active : Bool

pub record Skill : Type 0 where
  pub id : ℕ
  pub topic : Topic
  pub name : Text
  pub slug : Text
  pub is_active : Bool

pub record QuestionFamily : Type 0 where
  pub id : ℕ
  pub skill : Skill
  pub name : Text
  pub slug : Text
  pub is_active : Bool

pub record DiagnosticBlock : Type 0 where
  pub block_type : Text
  pub content : Text

pub record Question : Type 0 where
  pub id : ℕ
  pub family : QuestionFamily
  pub title : Text
  pub slug : Text
  pub level : SupportLevel
  pub difficulty : Text
  pub scenario : Text
  pub diagnostic_data : Text
  pub prompt : Text
  pub answer_type : QuestionType
  pub time_limit_seconds : ℕ
  pub explanation : Text
  pub status : QuestionStatus
  pub diagnostic_blocks : List DiagnosticBlock
  pub answer_options : List MarkedText
  pub matching_pairs : List PairText
  pub ordering_items : List Text
  pub selectable_lines : List MarkedText
