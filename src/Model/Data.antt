-- ===== src/Model/Data.antt =====
-- crates/terratranslate-core/src/model.rs: the structs and enums, field by field.
use terra_translate.Base.{ℕ, ℕ_discrete, ℤ, Text, List, [], Option, none}
use terra_translate.Base.OrdMap.{OrdMap}

abbrev pub GameId : Type 0
GameId = Text

abbrev pub CommitId : Type 0
CommitId = Text

abbrev pub EventId : Type 0
EventId = ℕ

abbrev pub Bytes : Type 0
Bytes = List ℕ

pub record GameIdentity : Type 0 where
  pub id : GameId
  pub name : Text
  pub executable_path : Text
  pub image_id : Option Text
  pub platform : Text
  pub runtime : Text

pub data Modality : Type 0 where
  text image audio : Modality

pub data SourceKind : Type 0 where
  wine_hook native_hook window_capture application_audio manual import : SourceKind

pub record PayloadRef : Type 0 where
  pub digest : Text
  pub media_type : Text
  pub byte_len : ℕ

pub record SourceEvent : Type 0 where
  pub id : EventId
  pub captured_at_ms : ℤ
  pub modality : Modality
  pub source : SourceKind
  pub target : Text
  pub payload : PayloadRef
  pub metadata : OrdMap Text

pub record Entity : Type 0 where
  pub display_name : Text
  pub aliases : List Text
  pub facts : List Text

pub record ContextSnapshot : Type 0 where
  pub summary : Text
  pub glossary : OrdMap Text
  pub entities : OrdMap Entity
  pub style : Text
  pub scratchpad : Text

-- `ContextSnapshot::default()`
abbrev pub empty_context : ContextSnapshot
empty_context = record { summary = []; glossary = []; entities = []; style = []; scratchpad = [] }

pub record ContextHistoryEntry : Type 0 where
  pub source_text : Text
  pub translated_text : Text
  pub context : ContextSnapshot

pub data ScratchpadAuthor : Type 0 where
  model user : ScratchpadAuthor

pub record ScratchpadEdit : Type 0 where
  pub author : ScratchpadAuthor
  pub at_ms : ℤ
  pub previous_digest : Text
  pub new_digest : Text

pub record ProcessorTrace : Type 0 where
  pub processor_id : Text
  pub processor_version : Text
  pub input_digest : Text
  pub output_digest : Text
  pub elapsed_micros : ℕ
  pub metadata : OrdMap Text

pub record ModelMetadata : Type 0 where
  pub provider : Text
  pub model : Text
  pub request_id : Option Text
  pub prompt_tokens : Option ℕ
  pub completion_tokens : Option ℕ

-- `ModelMetadata::default()`
abbrev pub no_model : ModelMetadata
no_model = record {
  provider = [];
  model = [];
  request_id = none;
  prompt_tokens = none;
  completion_tokens = none;
}

-- What a commit's identity is computed from.
pub record CommitContent : Type 0 where
  pub parents : List CommitId
  pub created_at_ms : ℤ
  pub source_events : List SourceEvent
  pub source_text : Text
  pub translated_text : Text
  pub context : ContextSnapshot
  pub scratchpad_edits : List ScratchpadEdit
  pub processor_trace : List ProcessorTrace
  pub model : ModelMetadata
  pub message : Text

-- The other fields of the struct stand in `content`, and are read through it.
pub record TranslationCommit : Type 0 where
  pub id : CommitId
  pub content : CommitContent
  pub open content use *

pub record BranchRef : Type 0 where
  pub name : Text
  pub head : CommitId
  pub updated_at_ms : ℤ

pub data CommitError : Type 0 where
  too_many_parents duplicate_parent encoding : CommitError

-- What the code takes from other crates: BLAKE3 (as the hexadecimal text of the digest) and the
-- JSON of a commit's content, of a commit, and of the values of a context.
pub record Externals : Type 0 where
  pub hash_hex : Bytes → Text
  pub content_json : CommitContent → Option Bytes
  pub commit_json : TranslationCommit → Option Text
  pub commit_from_json : Text → Option TranslationCommit
  pub text_json : Text → Text
  pub entity_json : Entity → Text

unfoldable pub Entity-discrete : Discrete Entity
Entity-discrete = hlevel ℕ_discrete

unfoldable pub Modality-discrete : Discrete Modality
Modality-discrete = hlevel
