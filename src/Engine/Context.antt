-- ===== src/Engine/Context.antt =====
-- crates/terratranslate-engine/src/lib.rs: the context that a turn starts from, and the patch that
-- the model answers with.
use terra_translate.Base.{
  Text, List, [], ◌∷◌, map, Bool, true, Option, none, some, Result, ok, map_err, ◌>>=◌,
  if◌then◌else◌,
}
use terra_translate.Model.{
  GameId, TranslationCommit, ContextSnapshot, ContextHistoryEntry, Externals,
}
use terra_translate.Store.Schema.{SessionStore, StoreError, main_branch}
use terra_translate.Store.Walk.{game_branch_history, branch_history}
use terra_translate.Provider.{ContextPatch}
use terra_translate.Engine.Data.{EngineError, store, ContextMode, current, endless}

-- `Option::unwrap_or`
abbrev pub unwrap_or {ℓ} : {A : Type ℓ} → Option A → A → A
unwrap_or none d = d
unwrap_or (some a) d = a

unfoldable pub apply_patch : ContextSnapshot → ContextPatch → ContextSnapshot
apply_patch context patch = record {
  summary = unwrap_or patch.summary context.summary;
  glossary = unwrap_or patch.glossary context.glossary;
  entities = unwrap_or patch.entities context.entities;
  style = unwrap_or patch.style context.style;
  scratchpad = unwrap_or patch.scratchpad context.scratchpad;
}

-- `[T]::last`
abbrev pub last {ℓ} : {A : Type ℓ} → List A → Option A
last [] = none
last (x ∷ []) = some x
last (x ∷ y ∷ xs) = last (y ∷ xs)

-- `Option::or_else`
abbrev pub or_else {ℓ} : {A : Type ℓ} → Option A → Option A → Option A
or_else none o = o
or_else (some a) o = some a

abbrev pub context_or : Option TranslationCommit → ContextSnapshot → ContextSnapshot
context_or none c = c
context_or (some k) c = k.context

abbrev pub history_entry : TranslationCommit → ContextHistoryEntry
history_entry k = record {
  source_text = k.source_text;
  translated_text = k.translated_text;
  context = record k.context { scratchpad = [] };
}

module _ (ext : Externals) (s : SessionStore) where
  -- The two arms of each `match game_id`.
  unfoldable pub history_of : Option GameId → Text → Result StoreError (List TranslationCommit)
  unfolding game_branch_history branch_history
  history_of none name = branch_history ext s name
  history_of (some game_id) name = game_branch_history ext s game_id name

  unfoldable pub prepare_context :
      ContextSnapshot
      → ContextMode
      → Option GameId
      → Text
      → Result EngineError (ContextSnapshot × List ContextHistoryEntry × Bool)
  unfolding history_of
  prepare_context current_context current game_id branch_name = ok (current_context, [], true)
  prepare_context current_context (endless include_scratchpad) game_id branch_name = do
    history ← map_err store (history_of game_id main_branch)
    current_branch_history ← map_err store (history_of game_id branch_name)
    let context : ContextSnapshot =
        context_or (or_else (last history) (last current_branch_history)) current_context
    ok (
      record context { scratchpad = if include_scratchpad then current_context.scratchpad else [] },
      map history_entry history,
      include_scratchpad,
    )
