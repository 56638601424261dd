-- ===== src/Engine/Scratchpad.antt =====
-- crates/terratranslate-engine/src/lib.rs: the scratchpad in the modes of the context.
use terra_translate.Base.{
  ℕ, Text, List, [], Bool, true, false, Option, Result, ok, map_err, ◌≡◌, refl, arith, sym, ap,
  >>=-eq-ok, subst,
}
use terra_translate.Model.{
  GameId, EventId, TranslationCommit, BranchRef, ContextSnapshot, ContextHistoryEntry,
  ProcessorTrace, Externals, verify_id-create,
}
use terra_translate.Store.Schema.{SessionStore, main_branch}
use terra_translate.Store.Integrity.{IsIntact}
use terra_translate.Provider.{TranslationResponse}
use terra_translate.Prompt.Macros.{PromptExternals}
use terra_translate.Engine.Data.{
  EngineError, store, endless, TurnRequest, TranslationEngine, Gathered,
}
use terra_translate.Engine.Context.{prepare_context, history_of}
use terra_translate.Engine.Request.{turn_content}
use terra_translate.Engine.Turn.{translate_turn, enter_game, game_id}
use terra_translate.Engine.Advance.{translate_turn-IsRun}

ok_injective : {A : Type 0} {a b : A} → ◌≡◌ {A = Result EngineError A} (ok a) (ok b) → a ≡ b
ok_injective h = cc

module _ (ext : Externals) where
  prepare_context_forgets :
      (s : SessionStore) (c : ContextSnapshot) (game : Option GameId) (name : Text)
      (prepared : ContextSnapshot × List ContextHistoryEntry × Bool)
      → prepare_context ext s c (endless false) game name ≡ ok prepared
      → (prepared.0.scratchpad ≡ []) × (prepared.2 ≡ false)
  unfolding prepare_context
  prepare_context_forgets s c game name prepared h =
      let (history, _, h1) = >>=-eq-ok (map_err store (history_of ext s game main_branch)) _ h in
      let (branch_history, _, h2) = >>=-eq-ok (map_err store (history_of ext s game name)) _ h1 in
      let same = ok_injective h2 in (sym (ap (λ p. p.0.scratchpad) same), sym (ap (λ p. p.2) same))

  content_forgets :
      (engine : TranslationEngine) (turn : TurnRequest) (head : BranchRef) (c : ContextSnapshot)
      (retain : Bool) (g : Gathered) (response : TranslationResponse)
      (translated : Text × List ProcessorTrace)
      → c.scratchpad ≡ []
      → retain ≡ false
      → ((turn_content ext engine turn head c retain g response translated).context.scratchpad ≡ [])
        × ((turn_content ext engine turn head c retain g response translated).scratchpad_edits ≡ [])
  unfolding turn_content
  content_forgets engine turn head c true g response translated e f = cc
  content_forgets engine turn head c false g response translated e f = (refl, ground (arith, e))

module _ (ext : Externals) (elapsed : ℕ → ℕ) (json : Text → Text → Text) (event_id : ℕ → EventId)
    (pext : PromptExternals) (meanwhile : SessionStore → SessionStore)
    (engine : TranslationEngine) where
  -- A turn on an intact database that succeeds, with endless context and without the scratchpad,
  -- commits an empty scratchpad and no edit of it, whatever the model's patch says and whatever the
  -- scratchpad of the branch was, if the other connections that work on the database meanwhile keep
  -- it intact.
  pub translate_turn_forgets :
      ((s : SessionStore) → IsIntact ext s → IsIntact ext (meanwhile s))
      → (turn : TurnRequest) (k : TranslationCommit) (s : SessionStore)
      → turn.context_mode ≡ endless false
      → IsIntact ext s
      → (translate_turn ext elapsed json event_id pext meanwhile engine turn s).0 ≡ ok k
      → (k.context.scratchpad ≡ []) × (k.scratchpad_edits ≡ [])
  translate_turn_forgets others turn k s mode v h =
      let run =
        translate_turn-IsRun ext elapsed json event_id pext meanwhile engine others turn k s v h in
      let entered = (enter_game ext engine.game turn s).1 in
      let (emptied, dropped) =
        prepare_context_forgets ext entered run.parent.context (game_id engine) turn.branch
          run.prepared
          (subst
            (λ m.
              prepare_context ext entered run.parent.context m (game_id engine) turn.branch
              ≡ ok run.prepared)
            mode run.prepares) in
      let (content, same) =
        content_forgets ext engine turn run.head run.prepared.0 run.prepared.2 run.closed.g
          run.closed.response run.closed.translated emptied dropped in
      rw (verify_id-create ext _ k run.closed.finished.made).1 (content, same)
