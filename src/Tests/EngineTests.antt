-- ===== src/Tests/EngineTests.antt =====
-- A turn of the engine on the sample history (crates/terratranslate-engine/src/lib.rs).
use terra_translate.Base.{
  txt, pos, [], ◌∷◌, Bool, true, false, none, some, Result, ok, err, ◌≡◌, refl, ◌↔◌, All,
}
use terra_translate.Model.{SourceKind, empty_context, TranslationCommit}
use terra_translate.Store.Schema.{SessionStore, main_branch}
use terra_translate.Store.Integrity.{IsIntact}
use terra_translate.Store.Branches.{Stays}
use terra_translate.Provider.{
  ModelCapabilities, ModelInput, ModelProvider, ProviderError, TranslationRequest, validate_request,
}
use terra_translate.Provider.Validation.{Supports, validate_request_iff}
use terra_translate.Prompt.Macros.{PromptExternals}
use terra_translate.Engine.Data.{EngineError, provider, endless, TurnRequest, TranslationEngine}
use terra_translate.Engine.Turn.{translate_turn}
use terra_translate.Engine.Advance.{IsTurn, translate_turn-IsTurn}
use terra_translate.Engine.Failure.{translate_turn_failed}
use terra_translate.Engine.Keeping.{translate_turn-IsIntact}
use terra_translate.Engine.Scratchpad.{translate_turn_forgets}
use terra_translate.Samples.{toy, toy-RoundTrips, toy-IsCollisionFree, digits, reply_commit}
use terra_translate.Tests.StoreTests.{runs, store, store-IsIntact}

abbrev capabilities : Bool → ModelCapabilities
capabilities tools = record {
  text = true;
  vision = false;
  audio = false;
  tools = tools;
  json_schema = false;
  streaming = false;
}

abbrev zero_provider : Bool → ModelProvider
zero_provider tools = record {
  id = txt "toy";
  model = [];
  capabilities = capabilities tools;
  translate = λ request. ok (record {
    translated_text = txt "zero";
    context_patch = record {
      summary = some (txt "digits");
      glossary = none;
      entities = none;
      style = none;
      scratchpad = some (txt "note");
    };
    request_id = none;
    prompt_tokens = none;
    completion_tokens = none;
  });
}

abbrev engine : Bool → TranslationEngine
engine tools = record { provider = zero_provider tools; processors = []; game = none }

abbrev request : TurnRequest
request = record {
  branch = main_branch;
  created_at_ms = pos 3;
  system_prompt = txt "{{#if texts}}{{branch | trim}}{{else}}none{{/if}}";
  user_prompt = [];
  source_language = none;
  target_language = txt "en";
  context_mode = endless false;
  inputs =
      record {
        captured_at_ms = pos 2;
        source = SourceKind.manual;
        target = txt "window";
        input = ModelInput.text digits;
        text_options = none;
      }
      ∷ [];
}

abbrev pub pext : PromptExternals
pext = record {
  text_json = λ t. t;
  glossary_json = λ g. [];
  entities_json = λ e. [];
  context_json = λ c. [];
  text_from_json = λ t. some t;
  to_uppercase = λ t. t;
  to_lowercase = λ t. t;
}

abbrev turn_result : Bool → Result EngineError TranslationCommit × SessionStore
turn_result tools =
    translate_turn toy (λ n. n) (λ l t. t) (λ n. n) pext (λ s. s) (engine tools) request store

-- A text and a picture, which the capabilities do not cover.
abbrev text_request : TranslationRequest
text_request = record {
  system_prompt = [];
  user_prompt = [];
  inputs = ModelInput.text digits ∷ ModelInput.image (txt "image/png") [] ∷ [];
  source_language = none;
  target_language = txt "en";
  context = empty_context;
  context_history = [];
}

turns : Unit {0}
unfolding runs translate_turn
turns = tt

turn_ok : (turn_result true).0 ≡ ok reply_commit
unfolding turns
turn_ok = refl

-- Without tool calls the request is refused.
turn_refused : (turn_result false).0 ≡ err (provider ProviderError.tools_unsupported)
unfolding turns
turn_refused = refl

translate_turn-IsTurn_example :
    IsTurn toy
      (λ n. n)
      (λ l t. t)
      (λ n. n)
      pext
      (λ s. s)
      (engine true)
      request
      reply_commit
      store
      (turn_result true).1
translate_turn-IsTurn_example =
    translate_turn-IsTurn toy (λ n. n) (λ l t. t) (λ n. n) pext (λ s. s) (engine true)
      toy-RoundTrips toy-IsCollisionFree (λ s v. v) request reply_commit store store-IsIntact
      turn_ok

translate_turn_forgets_example :
    (reply_commit.context.scratchpad ≡ []) × (reply_commit.scratchpad_edits ≡ [])
translate_turn_forgets_example =
    translate_turn_forgets toy (λ n. n) (λ l t. t) (λ n. n) pext (λ s. s) (engine true) (λ s v. v)
      request reply_commit store refl store-IsIntact turn_ok

translate_turn_failed_example : Stays store (turn_result false).1
translate_turn_failed_example =
    translate_turn_failed toy (λ n. n) (λ l t. t) (λ n. n) pext (λ s. s) (engine false)
      (λ s g n r h. h) request store (λ k e. cc (turn_refused, e))

translate_turn-IsIntact_example : IsIntact toy (turn_result true).1
translate_turn-IsIntact_example =
    translate_turn-IsIntact toy (λ n. n) (λ l t. t) (λ n. n) pext (λ s. s) (engine true)
      toy-RoundTrips (λ s v. v) request store store-IsIntact

validate_request_iff_example :
    (validate_request (capabilities true) text_request ≡ ok tt)
    ↔ (All (Supports (capabilities true)) text_request.inputs × ((capabilities true).tools ≡ true))
validate_request_iff_example = validate_request_iff (capabilities true) text_request
