-- ===== src/Engine/Turn.antt =====
-- crates/terratranslate-engine/src/lib.rs: `TranslationEngine::translate_turn`. While the model
-- answers, other connections may change the database: that is the function `meanwhile`.
use terra_translate.Base.{
  ℕ, Text, List, [], ◌∷◌, Bool, true, false, Option, none, some, Result, map_err, ensure,
}
use terra_translate.Model.{
  GameId, GameIdentity, EventId, CommitId, TranslationCommit, CommitContent, BranchRef,
  ContextSnapshot, ContextHistoryEntry, ProcessorTrace, Externals, create,
}
use terra_translate.Store.Schema.{SessionStore, StoreError}
use terra_translate.Store.Read.{get_commit, game_branch, branch}
use terra_translate.Store.Exec.{Action, Exec, pure, query, modify, lift, ◌>>=◌, ◌>>◌}
use terra_translate.Store.Write.{put_commit, ensure_game, advance_branch, advance_game_branch}
use terra_translate.Processor.{post_translation}
use terra_translate.Provider.{TranslationRequest, TranslationResponse}
use terra_translate.Prompt.Macros.{PromptExternals}
use terra_translate.Engine.Data.{
  EngineError, store, provider, branch_moved, empty_turn, TurnInput, TurnRequest, TranslationEngine,
  Gathered,
}
use terra_translate.Engine.Context.{prepare_context}
use terra_translate.Engine.Stages.{run_stage, aggregate_processor_metadata}
use terra_translate.Engine.Request.{build_request, turn_content}
use terra_translate.Engine.Gather.{describe, add_event, gather_content, empty_gathered, and_then}
use terra_translate.Store.Blobs.{put_blob}

-- `!turn.inputs.is_empty()`
abbrev pub is_nonempty : List TurnInput → Bool
is_nonempty [] = false
is_nonempty (i ∷ is) = true

-- The arms of the two `match game_id`.
unfoldable pub turn_branch : SessionStore → Option GameId → Text → Result StoreError BranchRef
unfolding game_branch branch
turn_branch s none name = branch s name
turn_branch s (some game_id) name = game_branch s game_id name

unfoldable pub advance_turn :
    Externals → Option GameId → TurnRequest → CommitId → CommitId → Exec Bool
unfolding advance_branch advance_game_branch
advance_turn ext none turn expected new_head =
    advance_branch ext turn.branch expected new_head turn.created_at_ms
advance_turn ext (some game_id) turn expected new_head =
    advance_game_branch ext game_id turn.branch expected new_head turn.created_at_ms

module _ (ext : Externals) where
  -- Registers the engine's game.
  unfoldable pub enter_game : Option GameIdentity → TurnRequest → Action EngineError (Unit {0})
  unfolding ensure_game
  enter_game none turn = pure tt
  enter_game (some game) turn = lift store (ensure_game ext game turn.created_at_ms)

-- `game_id` of a turn, which is none without a game.
abbrev pub game_id : TranslationEngine → Option GameId
game_id engine = and_then engine.game λ game. some game.id

module _ (ext : Externals) (elapsed : ℕ → ℕ) (json : Text → Text → Text) (event_id : ℕ → EventId)
    (pext : PromptExternals) (meanwhile : SessionStore → SessionStore)
    (engine : TranslationEngine) where
  -- The body of the loop over the inputs.
  unfoldable pub gather_input : ContextSnapshot → TurnInput → Gathered → Action EngineError Gathered
  unfolding describe add_event put_blob gather_content
  gather_input context input g = do
    digest ← lift store (put_blob ext (describe input.input).2)
    query (λ _.
        gather_content ext elapsed json engine.processors context input input.input
          (add_event event_id input digest g))

  unfoldable pub gather_inputs :
      ContextSnapshot → List TurnInput → Gathered → Action EngineError Gathered
  unfolding gather_input
  gather_inputs context [] g = pure g
  gather_inputs context (input ∷ inputs) g =
      gather_input context input g >>= gather_inputs context inputs

  -- The end of a turn: the commit is stored, and the branch moves to it.
  unfoldable pub finish :
      TurnRequest → BranchRef → CommitContent → Action EngineError TranslationCommit
  unfolding create put_commit advance_turn
  finish turn head content = do
    made ← query (λ s. map_err EngineError.commit (create ext content))
    lift store (put_commit ext made)
    advanced ← lift store (advance_turn ext (game_id engine) turn head.head made.id)
    query (λ s. ensure advanced branch_moved)
    pure made

  -- The middle: the model is asked, and its answer passes through the processors.
  unfoldable pub ask :
      TurnRequest
      → ContextSnapshot
      → Gathered
      → TranslationRequest
      → Action EngineError (TranslationResponse × (Text × List ProcessorTrace))
  unfolding run_stage aggregate_processor_metadata
  ask turn context g request = do
    modify meanwhile
    response ← query (λ s. map_err provider (engine.provider.translate request))
    translated ← query (λ s.
        run_stage ext elapsed engine.processors post_translation response.translated_text context
          g.trace (and_then g.post_translation_selection λ selection. selection)
          (aggregate_processor_metadata g.source_events))
    pure (response, translated)

  -- From the prepared context on.
  unfoldable pub answer_turn :
      TurnRequest
      → BranchRef
      → ContextSnapshot × List ContextHistoryEntry × Bool
      → Action EngineError TranslationCommit
  unfolding gather_inputs build_request ask turn_content finish
  answer_turn turn head prepared = do
    g ← gather_inputs prepared.0 turn.inputs empty_gathered
    request ← query (λ s. build_request pext engine turn prepared.0 prepared.1 g)
    answer ← ask turn prepared.0 g request
    finish turn head (turn_content ext engine turn head prepared.0 prepared.2 g answer.0 answer.1)

  unfoldable pub translate_turn : TurnRequest → Action EngineError TranslationCommit
  unfolding enter_game turn_branch get_commit prepare_context answer_turn
  translate_turn turn = do
    query (λ s. ensure (is_nonempty turn.inputs) empty_turn)
    enter_game ext engine.game turn
    head ← query (λ s. map_err store (turn_branch s (game_id engine) turn.branch))
    parent ← query (λ s. map_err store (get_commit ext s head.head))
    prepared ←
        query
          (λ s. prepare_context ext s parent.context turn.context_mode (game_id engine) turn.branch)
    answer_turn turn head prepared
