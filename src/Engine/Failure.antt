-- ===== src/Engine/Failure.antt =====
-- crates/terratranslate-engine/src/lib.rs: a turn that fails moves no branch.
use terra_translate.Base.{
  ℕ, Text, List, [], ◌∷◌, Bool, true, false, Option, none, some, Result, ok, err, out_of_fuel,
  map_err, ensure, ◌≢◌, refl,
}
use terra_translate.Model.{
  GameId, GameIdentity, CommitId, EventId, TranslationCommit, CommitContent, BranchRef,
  ContextSnapshot, ContextHistoryEntry, Externals,
}
use terra_translate.Store.Schema.{SessionStore, StoreError}
use terra_translate.Store.Exec.{Action, Exec, pure, query, lift, continue, ◌>>=◌, ◌>>◌}
use terra_translate.Store.Write.{advance_branch, advance_game_branch}
use terra_translate.Store.Respects.{
  Respects, IsSafe, >>=-Respects, >>-Respects, query-Respects, pure-Respects, modify-Respects,
  lift-Respects, >>=-IsSafe, >>-IsSafe,
}
use terra_translate.Store.Branches.{
  Stays, stays_self, stays_trans, SameRows, rows_self, rows_trans, rows_stay, put_commit_rows,
  put_blob_rows, ensure_game-Stays, advance_row_failed, query_failed,
}
use terra_translate.Provider.{TranslationRequest}
use terra_translate.Prompt.Macros.{PromptExternals}
use terra_translate.Engine.Data.{
  EngineError, store, branch_moved, TurnInput, TurnRequest, TranslationEngine, Gathered,
}
use terra_translate.Engine.Request.{turn_content}
use terra_translate.Engine.Gather.{empty_gathered}
use terra_translate.Engine.Turn.{
  advance_turn, game_id, enter_game, gather_input, gather_inputs, finish, ask, answer_turn,
  translate_turn,
}

module _ (ext : Externals) where
  enter_game-Stays :
      (game : Option GameIdentity) (turn : TurnRequest) → Respects Stays (enter_game ext game turn)
  unfolding enter_game
  enter_game-Stays none turn = pure-Respects Stays stays_self stays_trans tt
  enter_game-Stays (some game) turn =
      lift-Respects Stays stays_self stays_trans _ _ (ensure_game-Stays ext game turn.created_at_ms)

  advance_turn_failed :
      (game : Option GameId) (turn : TurnRequest) (expected new_head : CommitId) (s : SessionStore)
      → (advance_turn ext game turn expected new_head s).0 ≢ ok true
      → SameRows s (advance_turn ext game turn expected new_head s).1
  unfolding advance_turn advance_branch advance_game_branch
  advance_turn_failed none turn expected new_head s failed =
      query_failed ext _ _ s (λ k. advance_row_failed ext _ _ _ _ _ s) failed
  advance_turn_failed (some id) turn expected new_head s failed =
      query_failed ext _ _ s (λ b. query_failed ext _ _ s (λ k. advance_row_failed ext _ _ _ _ _ s))
        failed

  -- The tail of `finish`.
  close-IsSafe :
      (m : Exec Bool) (k : TranslationCommit)
      → ((s : SessionStore) → (m s).0 ≢ ok true → SameRows s (m s).1)
      → IsSafe SameRows rows_self rows_trans (
          lift store m >>= λ advanced.
          query {E = EngineError} (λ s. ensure advanced branch_moved) >> pure k)
  unfolding ◌>>=◌
  close-IsSafe m k h = record { at = λ s. go s (m s).0 (h s) }
    where
      go :
          (s : SessionStore) (r : Result StoreError Bool)
          → (r ≢ ok true → SameRows s (m s).1)
          → ((a : TranslationCommit)
              → (continue (map_err store r) (m s).1 λ advanced.
                  query {E = EngineError} (λ s'. ensure advanced branch_moved) >> pure k).0
                ≢ ok a)
          → SameRows s
              (continue (map_err store r) (m s).1 λ advanced.
                query {E = EngineError} (λ s'. ensure advanced branch_moved) >> pure k).1
      go s (ok true) same failed = absurd (failed k refl)
      go s (ok false) same failed = same (λ e. cc e)
      go s (err x) same failed = same (λ e. cc e)
      go s out_of_fuel same failed = same (λ e. cc e)

  -- An action that keeps the rows if it fails moves no branch then.
  IsSafe-stays :
      {E A : Type 0} (m : Action E A)
      → IsSafe SameRows rows_self rows_trans m
      → IsSafe Stays stays_self stays_trans m
  IsSafe-stays m h = record { at = λ s failed. rows_stay s (m s).1 (h.at s failed) }

  rows_respect : {E A : Type 0} (m : Action E A) → Respects SameRows m → Respects Stays m
  rows_respect m h = record { at = λ s. rows_stay s (m s).1 (h.at s) }

module _ (ext : Externals) (elapsed : ℕ → ℕ) (json : Text → Text → Text) (event_id : ℕ → EventId)
    (pext : PromptExternals) (meanwhile : SessionStore → SessionStore)
    (engine : TranslationEngine) where
  gather_inputs_rows :
      (context : ContextSnapshot) (inputs : List TurnInput) (g : Gathered)
      → Respects SameRows
          (gather_inputs ext elapsed json event_id pext meanwhile engine context inputs g)
  unfolding gather_inputs gather_input
  gather_inputs_rows context [] g = pure-Respects SameRows rows_self rows_trans g
  gather_inputs_rows context (input ∷ inputs) g =
      >>=-Respects SameRows rows_self rows_trans _ _
        (>>=-Respects SameRows rows_self rows_trans _ _
          (lift-Respects SameRows rows_self rows_trans _ _ (put_blob_rows ext _))
          λ digest. query-Respects SameRows rows_self rows_trans _)
        (gather_inputs_rows context inputs)

  finish-IsSafe :
      (turn : TurnRequest) (head : BranchRef) (content : CommitContent)
      → IsSafe SameRows rows_self rows_trans
          (finish ext elapsed json event_id pext meanwhile engine turn head content)
  unfolding finish
  finish-IsSafe turn head content =
      >>=-IsSafe SameRows rows_self rows_trans _ _ (query-Respects SameRows rows_self rows_trans _)
        λ made.
          >>-IsSafe SameRows rows_self rows_trans _ _
            (lift-Respects SameRows rows_self rows_trans _ _ (put_commit_rows ext made))
            (close-IsSafe ext (advance_turn ext (game_id engine) turn head.head made.id) made
              λ s. advance_turn_failed ext (game_id engine) turn head.head made.id s)

  ask-Stays :
      ((s : SessionStore) → Stays s (meanwhile s))
      → (turn : TurnRequest) (context : ContextSnapshot) (g : Gathered)
        (request : TranslationRequest)
      → Respects Stays (ask ext elapsed json event_id pext meanwhile engine turn context g request)
  unfolding ask
  ask-Stays others turn context g request =
      >>-Respects Stays stays_self stays_trans _ _
        (modify-Respects Stays stays_self stays_trans meanwhile others)
        (>>=-Respects Stays stays_self stays_trans _ _
          (query-Respects Stays stays_self stays_trans _)
          λ response.
            >>=-Respects Stays stays_self stays_trans _ _
              (query-Respects Stays stays_self stays_trans _)
              λ translated. pure-Respects Stays stays_self stays_trans _)

  answer_turn-IsSafe :
      ((s : SessionStore) → Stays s (meanwhile s))
      → (turn : TurnRequest) (head : BranchRef)
        (prepared : ContextSnapshot × List ContextHistoryEntry × Bool)
      → IsSafe Stays stays_self stays_trans
          (answer_turn ext elapsed json event_id pext meanwhile engine turn head prepared)
  unfolding answer_turn
  answer_turn-IsSafe others turn head prepared =
      >>=-IsSafe Stays stays_self stays_trans _ _
        (rows_respect ext _ (gather_inputs_rows prepared.0 turn.inputs empty_gathered))
        λ g.
          >>=-IsSafe Stays stays_self stays_trans _ _
            (query-Respects Stays stays_self stays_trans _)
            λ request.
              >>=-IsSafe Stays stays_self stays_trans _ _
                (ask-Stays others turn prepared.0 g request)
                λ answer. IsSafe-stays ext _ (
                  finish-IsSafe turn head
                    (turn_content ext engine turn head prepared.0 prepared.2 g answer.0 answer.1))

  -- If a turn fails, whatever the reason, every branch that could be found before is found with the
  -- same head after it, if the other connections that work on the database meanwhile move none.
  pub translate_turn_failed :
      ((s : SessionStore) → Stays s (meanwhile s))
      → (turn : TurnRequest) (s : SessionStore)
      → ((k : TranslationCommit)
          → (translate_turn ext elapsed json event_id pext meanwhile engine turn s).0 ≢ ok k)
      → Stays s (translate_turn ext elapsed json event_id pext meanwhile engine turn s).1
  unfolding translate_turn
  translate_turn_failed others turn s failed =
      (>>-IsSafe Stays stays_self stays_trans _ _ (query-Respects Stays stays_self stays_trans _) (
          >>-IsSafe Stays stays_self stays_trans (enter_game ext engine.game turn) _
            (enter_game-Stays ext engine.game turn)
            (>>=-IsSafe Stays stays_self stays_trans _ _
              (query-Respects Stays stays_self stays_trans _)
              λ head.
                >>=-IsSafe Stays stays_self stays_trans _ _
                  (query-Respects Stays stays_self stays_trans _)
                  λ parent.
                    >>=-IsSafe Stays stays_self stays_trans _ _
                      (query-Respects Stays stays_self stays_trans _)
                      λ prepared. answer_turn-IsSafe others turn head prepared))).at
        s failed
