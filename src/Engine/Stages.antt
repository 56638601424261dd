-- ===== src/Engine/Stages.antt =====
-- crates/terratranslate-engine/src/lib.rs: `run_stage` and the metadata of its traces.
use terra_translate.Base.{
  ℕ, Text, Text-discrete, txt, is_empty, trim, List, [], ◌∷◌, ◌++◌, length, Bool, true, false,
  Option, none, some, ite, Result, ok, map_err, ◌>>=◌, if◌then◌else◌,
}
use terra_translate.Base.OrdMap.{OrdMap, get, insert}
use terra_translate.Base.Split.{join}
use terra_translate.Base.Utf8.{as_bytes}
use terra_translate.Model.{ContextSnapshot, ProcessorTrace, SourceEvent, SourceKind, Externals}
use terra_translate.Processor.{ProcessorStage, ProcessorStage-discrete, TextProcessor}
use terra_translate.Engine.Data.{EngineError, processor, TextInputOptions}

-- `stages().contains(&stage)`
unfoldable pub supports : ProcessorStage → List ProcessorStage → Bool
unfolding ProcessorStage-discrete
supports stage [] = false
supports stage (x ∷ xs) = ite (ProcessorStage-discrete x stage) true (supports stage xs)

-- `processors.iter().find(|processor| processor.id() == id)`
unfoldable pub find_processor : Text → List TextProcessor → Option TextProcessor
find_processor id [] = none
find_processor id (p ∷ ps) = ite (Text-discrete p.id id) (some p) (find_processor id ps)

-- `.filter(|processor| processor.stages().contains(&stage))`
unfoldable pub filter_stage : ProcessorStage → List TextProcessor → List TextProcessor
unfolding supports
filter_stage stage [] = []
filter_stage stage (p ∷ ps) =
    let rest = filter_stage stage ps in if supports stage p.stages then p ∷ rest else rest

-- `.filter_map(…)` over the IDs
unfoldable pub find_processors : List Text → List TextProcessor → List TextProcessor
unfolding find_processor
find_processors [] ps = []
find_processors (id ∷ ids) ps = elim (find_processor id ps) [
  | none ↦ find_processors ids ps
  | some p ↦ p ∷ find_processors ids ps
]

unfoldable pub selected_processors :
    Option (List Text) → ProcessorStage → List TextProcessor → List TextProcessor
unfolding find_processors filter_stage
selected_processors none stage ps = filter_stage stage ps
selected_processors (some ids) stage ps = filter_stage stage (find_processors ids ps)

-- `blake3::hash(text.as_bytes()).to_hex()`
abbrev pub text_digest : Externals → Text → Text
text_digest ext text = ext.hash_hex (as_bytes text)

-- `elapsed` gives the measured time of a call.
module _ (ext : Externals) (elapsed : ℕ → ℕ) where
  module _ (stage : ProcessorStage) (context : ContextSnapshot) (metadata : OrdMap Text) where
    -- The loop of `run_stage`, with the trace so far.
    unfoldable pub run_processors :
        List TextProcessor
        → Text
        → List ProcessorTrace
        → Result EngineError (Text × List ProcessorTrace)
    run_processors [] text trace = ok (text, trace)
    run_processors (p ∷ ps) text trace = do
      response ←
          map_err (processor p.id)
            (p.process (length trace) (record { stage = stage; text = text; context = context }))
      run_processors ps response.text (
          trace
          ++ record {
            processor_id = p.id;
            processor_version = p.version;
            input_digest = text_digest ext text;
            output_digest = text_digest ext response.text;
            elapsed_micros = elapsed (length trace);
            metadata = metadata;
          }
            ∷ [])

  -- `TranslationEngine::run_stage`
  unfoldable pub run_stage :
      List TextProcessor
      → ProcessorStage
      → Text
      → ContextSnapshot
      → List ProcessorTrace
      → Option (List Text)
      → OrdMap Text
      → Result EngineError (Text × List ProcessorTrace)
  unfolding selected_processors run_processors
  run_stage processors stage text context trace selected metadata =
      run_processors stage context metadata (selected_processors selected stage processors) text
        trace

-- `if let Some(value) = … { metadata.insert(key, value) }`
abbrev pub insert_some : Text → Option Text → OrdMap Text → OrdMap Text
insert_some key none m = m
insert_some key (some v) m = insert key v m

unfoldable pub processor_metadata : Option TextInputOptions → OrdMap Text
unfolding insert join
processor_metadata none = []
processor_metadata (some options) =
    insert (txt "post_translation_processors") (join (txt ",") options.processing.post_translation)
      (insert (txt "pre_prompt_processors") (join (txt ",") options.processing.pre_prompt) (
        insert_some (txt "text_hook_label") options.label
          (insert_some (txt "stable_hook_key") options.stable_hook_key [])))

-- The non-empty values under one key.
unfoldable pub event_values : Text → List SourceEvent → List Text
unfolding get
event_values key [] = []
event_values key (e ∷ es) =
    let rest = event_values key es in
    elim (get key e.metadata) [ none ↦ rest | some v ↦ if is_empty v then rest else v ∷ rest ]

-- The body of the loop of `aggregate_processor_metadata`.
unfoldable pub aggregate : List SourceEvent → Text → Text → OrdMap Text → OrdMap Text
unfolding event_values insert join
aggregate es source_name event_name m = elim (event_values source_name es) [
  | [] ↦ m
  | v ∷ vs ↦ insert event_name (join (txt ",") (v ∷ vs)) m
]

unfoldable pub aggregate_processor_metadata : List SourceEvent → OrdMap Text
unfolding aggregate
aggregate_processor_metadata es =
    aggregate es (txt "post_translation_processors") (txt "post_translation_processors") (
      aggregate es (txt "pre_prompt_processors") (txt "pre_prompt_processors") (
        aggregate es (txt "text_hook_label") (txt "text_hook_labels")
          (aggregate es (txt "stable_hook_key") (txt "stable_hook_keys") [])))

unfoldable pub source_kind_name : SourceKind → Text
source_kind_name SourceKind.wine_hook = txt "wine_hook"
source_kind_name SourceKind.native_hook = txt "native_hook"
source_kind_name SourceKind.window_capture = txt "window_capture"
source_kind_name SourceKind.application_audio = txt "application_audio"
source_kind_name SourceKind.manual = txt "manual"
source_kind_name SourceKind.import = txt "import"

-- `.map(str::trim).filter(|text| !text.is_empty())`
unfoldable pub trimmed : Option Text → Option Text
unfolding trim
trimmed none = none
trimmed (some t) = if is_empty (trim t) then none else some (trim t)

-- `json` prints the object with the label and the text.
unfoldable pub label_text_input : (json : Text → Text → Text) → Option Text → Text → Text
unfolding trimmed
label_text_input json label text = elim (trimmed label) [ none ↦ text | some l ↦ json l text ]
