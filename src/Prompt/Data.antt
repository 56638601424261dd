-- ===== src/Prompt/Data.antt =====
-- crates/terratranslate-core/src/prompt.rs: the values that a prompt template can show, and its
-- errors.
use terra_translate.Base.{ℕ, Text, List, Bool, Option}
use terra_translate.Model.{GameIdentity, ContextSnapshot}

pub record PromptText : Type 0 where
  pub index : ℕ
  pub hook_id : Option Text
  pub label : Option Text
  pub text : Text
  pub source : Text
  pub target : Text
  pub updated : Bool

pub record PromptData : Type 0 where
  pub game : Option GameIdentity
  pub source_language : Option Text
  pub target_language : Text
  pub branch : Text
  pub context : ContextSnapshot
  pub texts : List PromptText

pub data PromptTemplateError : Type 0 where
  unclosed_macro unclosed_block unexpected_block_end unknown_block unknown_condition :
      Text → PromptTemplateError
  invalid_filter_argument unknown_macro unknown_filter : Text → PromptTemplateError
  unclosed_enumeration unexpected_enumeration_end unexpected_else multiple_else :
      PromptTemplateError
