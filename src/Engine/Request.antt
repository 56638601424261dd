-- ===== src/Engine/Request.antt =====
-- crates/terratranslate-engine/src/lib.rs: what `translate_turn` sends to the model, and what it
-- puts into the commit.
use terra_translate.Base.{
  Text, Text-discrete, txt, List, [], ◌∷◌, Bool, true, false, none, ite, Result, ok, map_err, ◌>>=◌,
  ◌>>◌,
}
use terra_translate.Base.Split.{join}
use terra_translate.Model.{
  BranchRef, CommitContent, ContextSnapshot, ContextHistoryEntry, ScratchpadAuthor, ScratchpadEdit,
  ProcessorTrace, Externals,
}
use terra_translate.Prompt.{PromptData}
use terra_translate.Provider.{
  TranslationRequest, TranslationResponse, ContextPatch, validate_request,
}
use terra_translate.Prompt.Render.{render}
use terra_translate.Prompt.Macros.{PromptExternals}
use terra_translate.Engine.Data.{
  EngineError, provider, prompt, TurnRequest, TranslationEngine, Gathered,
}
use terra_translate.Engine.Context.{apply_patch}
use terra_translate.Engine.Stages.{text_digest}

-- The model's patch, without a scratchpad if none is retained.
unfoldable pub patched : ContextSnapshot → ContextPatch → Bool → ContextSnapshot
unfolding apply_patch
patched context patch true = apply_patch context patch
patched context patch false = record (apply_patch context (record patch { scratchpad = none })) {
  scratchpad = [];
}

module _ (ext : Externals) where
  unfoldable pub scratchpad_edits : TurnRequest → Text → Text → List ScratchpadEdit
  scratchpad_edits turn previous now = ite (Text-discrete now previous) [] (
      record {
        author = ScratchpadAuthor.model;
        at_ms = turn.created_at_ms;
        previous_digest = text_digest ext previous;
        new_digest = text_digest ext now;
      }
      ∷ [])

module _ (pext : PromptExternals) (engine : TranslationEngine) where
  abbrev pub prompt_data : TurnRequest → ContextSnapshot → Gathered → PromptData
  prompt_data turn context g = record {
    game = engine.game;
    source_language = turn.source_language;
    target_language = turn.target_language;
    branch = turn.branch;
    context = context;
    texts = g.prompt_texts;
  }

  -- The request, rendered and validated.
  unfoldable pub build_request :
      TurnRequest
      → ContextSnapshot
      → List ContextHistoryEntry
      → Gathered
      → Result EngineError TranslationRequest
  unfolding validate_request render
  build_request turn context history g = do
    system ← map_err prompt (render pext (prompt_data turn context g) turn.system_prompt)
    user ← map_err prompt (render pext (prompt_data turn context g) turn.user_prompt)
    let request : TranslationRequest = record {
      system_prompt = system;
      user_prompt = user;
      inputs = g.model_inputs;
      source_language = turn.source_language;
      target_language = turn.target_language;
      context = context;
      context_history = history;
    }
    map_err provider (validate_request engine.provider.capabilities request)
    ok request

module _ (ext : Externals) (engine : TranslationEngine) where
  -- The commit of a turn: the content that `create` is given.
  unfoldable pub turn_content :
      TurnRequest
      → BranchRef
      → ContextSnapshot
      → Bool
      → Gathered
      → TranslationResponse
      → Text × List ProcessorTrace
      → CommitContent
  unfolding patched scratchpad_edits join
  turn_content turn head context retain g response translated =
      let after : ContextSnapshot = patched context response.context_patch retain in
      record {
        parents = head.head ∷ [];
        created_at_ms = turn.created_at_ms;
        source_events = g.source_events;
        source_text = join (10 ∷ []) g.source_text_parts;
        translated_text = translated.0;
        context = after;
        scratchpad_edits = scratchpad_edits ext turn context.scratchpad after.scratchpad;
        processor_trace = translated.1;
        model = record {
          provider = engine.provider.id;
          model = engine.provider.model;
          request_id = response.request_id;
          prompt_tokens = response.prompt_tokens;
          completion_tokens = response.completion_tokens;
        };
        message = txt "Translate multimodal turn";
      }
