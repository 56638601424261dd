-- ===== src/Processor.antt =====
-- crates/terratranslate-core/src/processor.rs: the text processors. A processor may keep state
-- behind a mutex, so its answer depends on how many calls came before, the argument ℕ of `process`.
pub mod Repeats
use terra_translate.Base.{
  ℕ, Text, Text-discrete, txt, List, [], ◌∷◌, ◌++◌, length, Bool, true, false, ltb, ◌==◌, ite,
  Result, ok, err, if◌then◌else◌,
}
use terra_translate.Base.Split.{normalize_lines}
use terra_translate.Model.{ContextSnapshot}

pub data ProcessorStage : Type 0 where
  pre_prompt post_translation pre_embedding : ProcessorStage

unfoldable pub ProcessorStage-discrete : Discrete ProcessorStage
ProcessorStage-discrete = hlevel

pub record ProcessorRequest : Type 0 where
  pub stage : ProcessorStage
  pub text : Text
  pub context : ContextSnapshot

pub record ProcessorResponse : Type 0 where
  pub text : Text
  pub diagnostics : List Text

pub data ProcessorError : Type 0 where
  rejected failed : Text → ProcessorError

-- The trait.
pub record TextProcessor : Type 0 where
  pub id : Text
  pub version : Text
  pub stages : List ProcessorStage
  pub process : ℕ → ProcessorRequest → Result ProcessorError ProcessorResponse

-- ALL_TEXT_STAGES
abbrev pub all_text_stages : List ProcessorStage
all_text_stages = pre_prompt ∷ post_translation ∷ pre_embedding ∷ []

unfoldable pub normalize_whitespace : TextProcessor
unfolding normalize_lines
normalize_whitespace = record {
  id = txt "builtin.normalize_whitespace";
  version = txt "1";
  stages = all_text_stages;
  process = λ calls request. ok (record { text = normalize_lines request.text; diagnostics = [] });
}

-- `replace_all` is that of the compiled `Regex`.
unfoldable pub regex_replacement :
    (replace_all : Text → Text → Text) (id replacement : Text) → List ProcessorStage → TextProcessor
regex_replacement replace_all id replacement stages = record {
  id = id;
  version = txt "1";
  stages = stages;
  process = λ calls request.
      ok (record { text = replace_all request.text replacement; diagnostics = [] });
}

-- The deque has its front first.
pub record RepeatSuppressor : Type 0 where
  pub id : Text
  pub capacity : ℕ
  pub recent : List Text

-- `RepeatSuppressor::new`
abbrev pub new_suppressor : Text → ℕ → RepeatSuppressor
new_suppressor id capacity = record { id = id; capacity = capacity; recent = [] }

-- `VecDeque::contains`
unfoldable pub is_recent : Text → List Text → Bool
is_recent t [] = false
is_recent t (x ∷ xs) = ite (Text-discrete x t) true (is_recent t xs)

-- `VecDeque::pop_front`
abbrev pub pop_front : List Text → List Text
pop_front [] = []
pop_front (x ∷ xs) = xs

unfoldable pub remember : ℕ → Text → List Text → List Text
remember capacity t recent =
    if ltb 0 capacity
    then (if length recent == capacity then pop_front recent else recent) ++ t ∷ []
    else recent

-- `RepeatSuppressor::process`, with the lock not poisoned.
unfoldable pub suppress :
    RepeatSuppressor → ProcessorRequest → Result ProcessorError ProcessorResponse × RepeatSuppressor
unfolding is_recent remember
suppress p request =
    if is_recent request.text p.recent then (err (rejected (txt "duplicate line")), p) else (
      ok (record { text = request.text; diagnostics = [] }),
      record p { recent = remember p.capacity request.text p.recent },
    )
