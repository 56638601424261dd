-- ===== src/Engine/Gather.antt =====
-- crates/terratranslate-engine/src/lib.rs: the loop of `translate_turn` over the inputs of the turn.
-- Each input is stored as a blob, and a text passes through the processors before the prompt.
use terra_translate.Base.{
  ℕ, ℕ_discrete, Text, txt, List, [], ◌∷◌, ◌++◌, length, true, Option, none, some, ite, Result, ok,
  err, ◌>>=◌, ◌+◌,
}
use terra_translate.Base.OrdMap.{OrdMap, insert}
use terra_translate.Base.Split.{join}
use terra_translate.Base.Utf8.{as_bytes}
use terra_translate.Model.{Bytes, EventId, Modality, ContextSnapshot, Externals}
use terra_translate.Processor.{pre_prompt, TextProcessor}
use terra_translate.Provider.{ModelInput}
use terra_translate.Engine.Data.{
  EngineError, incompatible_post_processing, TextInputOptions, TurnInput, Gathered,
}
use terra_translate.Engine.Context.{unwrap_or}
use terra_translate.Engine.Stages.{
  run_stage, processor_metadata, insert_some, trimmed, source_kind_name, label_text_input,
}

-- `Option::and_then`
abbrev pub and_then {ℓ κ} : {A : Type ℓ} {B : Type κ} → Option A → (A → Option B) → Option B
and_then none f = none
and_then (some a) f = f a

-- The modality, the media type and the bytes of an input.
unfoldable pub describe : ModelInput → Modality × Text × Bytes
unfolding as_bytes
describe (ModelInput.text t) = (Modality.text, txt "text/plain; charset=utf-8", as_bytes t)
describe (ModelInput.image media_type bytes) = (Modality.image, media_type, bytes)
describe (ModelInput.audio format bytes) = (Modality.audio, txt "audio/" ++ format, bytes)

unfoldable pub event_metadata : Option TextInputOptions → OrdMap Text
unfolding insert join trimmed
event_metadata none = []
event_metadata (some options) =
    insert (txt "post_translation_processors") (join (txt ",") options.processing.post_translation)
      (insert (txt "pre_prompt_processors") (join (txt ",") options.processing.pre_prompt) (
        insert_some (txt "text_hook_label") (trimmed options.label)
          (insert_some (txt "stable_hook_key") (trimmed options.stable_hook_key) [])))

unfoldable pub Selection-discrete : Discrete (Option (List Text))
Selection-discrete = hlevel ℕ_discrete

-- The `match` on `post_translation_selection`.
unfoldable pub select_post :
    Option (Option (List Text))
    → Option (List Text)
    → Result EngineError (Option (Option (List Text)))
unfolding Selection-discrete
select_post none selected = ok (some selected)
select_post (some existing) selected =
    ite (Selection-discrete existing selected) (ok (some existing))
      (err incompatible_post_processing)

abbrev pub empty_gathered : Gathered
empty_gathered = record {
  source_events = [];
  model_inputs = [];
  source_text_parts = [];
  prompt_texts = [];
  trace = [];
  post_translation_selection = none;
}

-- `source_events.push(…)`; `event_id` draws the UUID of an event.
unfoldable pub add_event : (event_id : ℕ → EventId) → TurnInput → Text → Gathered → Gathered
unfolding describe event_metadata
add_event event_id input digest g = record g {
  source_events =
      g.source_events
      ++ record {
        id = event_id (length g.source_events);
        captured_at_ms = input.captured_at_ms;
        modality = (describe input.input).0;
        source = input.source;
        target = input.target;
        payload = record {
          digest = digest;
          media_type = (describe input.input).1;
          byte_len = length (describe input.input).2;
        };
        metadata = event_metadata input.text_options;
      }
        ∷ [];
}

-- `json` prints a labelled text.
module _ (ext : Externals) (elapsed : ℕ → ℕ) (json : Text → Text → Text)
    (processors : List TextProcessor) (context : ContextSnapshot) where
  -- The second `match` on an input, on a text.
  unfoldable pub gather_text : TurnInput → Text → Gathered → Result EngineError Gathered
  unfolding run_stage processor_metadata source_kind_name label_text_input select_post
  gather_text input text g = do
    (processed, trace) ←
        run_stage ext elapsed processors pre_prompt text context g.trace
          (and_then input.text_options λ o. some o.processing.pre_prompt)
          (processor_metadata input.text_options)
    selection ←
        select_post g.post_translation_selection
          (and_then input.text_options λ o. some o.processing.post_translation)
    ok (record g {
      source_text_parts = g.source_text_parts ++ processed ∷ [];
      prompt_texts =
          g.prompt_texts
          ++ record {
            index = length g.prompt_texts + 1;
            hook_id = and_then input.text_options λ o. o.stable_hook_key;
            label = and_then input.text_options λ o. o.label;
            text = processed;
            source = source_kind_name input.source;
            target = input.target;
            updated = unwrap_or (and_then input.text_options λ o. some o.updated) true;
          }
            ∷ [];
      model_inputs =
          g.model_inputs
          ++ ModelInput.text
              (label_text_input json (and_then input.text_options λ o. o.label) processed)
            ∷ [];
      trace = trace;
      post_translation_selection = selection;
    })

  -- The `match` itself.
  unfoldable pub gather_content : TurnInput → ModelInput → Gathered → Result EngineError Gathered
  unfolding gather_text
  gather_content input (ModelInput.text text) g = gather_text input text g
  gather_content input other g = ok (record g { model_inputs = g.model_inputs ++ other ∷ [] })
