-- ===== src/Engine/Data.antt =====
-- crates/terratranslate-engine/src/lib.rs: the data of a turn.
use terra_translate.Base.{ℤ, Text, List, Bool, Option}
use terra_translate.Model.{GameIdentity, SourceKind, SourceEvent, ProcessorTrace, CommitError}
use terra_translate.Store.Schema.{StoreError}
use terra_translate.Processor.{TextProcessor, ProcessorError}
use terra_translate.Provider.{ModelProvider, ModelInput, ProviderError}
use terra_translate.Prompt.{PromptText, PromptTemplateError}

pub record TextProcessingSelection : Type 0 where
  pub pre_prompt : List Text
  pub post_translation : List Text

pub record TextInputOptions : Type 0 where
  pub stable_hook_key : Option Text
  pub label : Option Text
  pub processing : TextProcessingSelection
  pub updated : Bool

pub data ContextMode : Type 0 where
  current : ContextMode
  endless : (include_scratchpad : Bool) → ContextMode

pub record TurnInput : Type 0 where
  pub captured_at_ms : ℤ
  pub source : SourceKind
  pub target : Text
  pub input : ModelInput
  pub text_options : Option TextInputOptions

pub record TurnRequest : Type 0 where
  pub branch : Text
  pub created_at_ms : ℤ
  pub system_prompt : Text
  pub user_prompt : Text
  pub source_language : Option Text
  pub target_language : Text
  pub context_mode : ContextMode
  pub inputs : List TurnInput

-- Where the code keeps `error.to_string()`, this keeps the error.
pub data EngineError : Type 0 where
  store : StoreError → EngineError
  provider : ProviderError → EngineError
  processor : (id : Text) → ProcessorError → EngineError
  commit : CommitError → EngineError
  branch_moved empty_turn incompatible_post_processing : EngineError
  prompt : PromptTemplateError → EngineError

-- The fields of the struct beside `store`, which the actions pass on.
pub record TranslationEngine : Type 0 where
  pub provider : ModelProvider
  pub processors : List TextProcessor
  pub game : Option GameIdentity

-- What the loop over the inputs has gathered; `post_translation_selection` is `none` until the
-- first text.
pub record Gathered : Type 0 where
  pub source_events : List SourceEvent
  pub model_inputs : List ModelInput
  pub source_text_parts : List Text
  pub prompt_texts : List PromptText
  pub trace : List ProcessorTrace
  pub post_translation_selection : Option (Option (List Text))
