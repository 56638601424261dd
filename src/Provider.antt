-- ===== src/Provider.antt =====
-- crates/terratranslate-provider/src/lib.rs: requests, responses and the check of a request against
-- the capabilities of a model. The model itself answers over the network.
pub mod Validation
use terra_translate.Base.{
  ℕ, Text, txt, List, [], ◌∷◌, Bool, Option, Result, ok, err, if◌then◌else◌, ensure, ◌>>◌,
}
use terra_translate.Base.OrdMap.{OrdMap}
use terra_translate.Model.{Bytes, ContextSnapshot, ContextHistoryEntry, Entity}

pub record ModelCapabilities : Type 0 where
  pub text : Bool
  pub vision : Bool
  pub audio : Bool
  pub tools : Bool
  pub json_schema : Bool
  pub streaming : Bool

pub data ModelInput : Type 0 where
  text : Text → ModelInput
  image : (media_type : Text) → Bytes → ModelInput
  audio : (format : Text) → Bytes → ModelInput

pub record TranslationRequest : Type 0 where
  pub system_prompt : Text
  pub user_prompt : Text
  pub inputs : List ModelInput
  pub source_language : Option Text
  pub target_language : Text
  pub context : ContextSnapshot
  pub context_history : List ContextHistoryEntry

pub record ContextPatch : Type 0 where
  pub summary : Option Text
  pub glossary : Option (OrdMap Text)
  pub entities : Option (OrdMap Entity)
  pub style : Option Text
  pub scratchpad : Option Text

pub record TranslationResponse : Type 0 where
  pub translated_text : Text
  pub context_patch : ContextPatch
  pub request_id : Option Text
  pub prompt_tokens : Option ℕ
  pub completion_tokens : Option ℕ

pub data ProviderError : Type 0 where
  unsupported_modality : Text → ProviderError
  tools_unsupported transport : ProviderError
  invalid_response : Text → ProviderError

-- The trait.
pub record ModelProvider : Type 0 where
  pub id : Text
  pub model : Text
  pub capabilities : ModelCapabilities
  pub translate : TranslationRequest → Result ProviderError TranslationResponse

-- The arms of the `match` on one input.
abbrev pub check_input : ModelCapabilities → ModelInput → Result ProviderError (Unit {0})
check_input c (ModelInput.text t) = ensure c.text (unsupported_modality (txt "text"))
check_input c (ModelInput.image m b) = ensure c.vision (unsupported_modality (txt "vision"))
check_input c (ModelInput.audio f b) = ensure c.audio (unsupported_modality (txt "audio"))

-- The loop over the inputs.
unfoldable pub check_inputs : ModelCapabilities → List ModelInput → Result ProviderError (Unit {0})
check_inputs c [] = ok tt
check_inputs c (input ∷ inputs) = do check_input c input; check_inputs c inputs

unfoldable pub validate_request :
    ModelCapabilities → TranslationRequest → Result ProviderError (Unit {0})
unfolding check_inputs
validate_request c request = do check_inputs c request.inputs; ensure c.tools tools_unsupported
