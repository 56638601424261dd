-- ===== src/Engine/Keeping.antt =====
-- crates/terratranslate-engine/src/lib.rs: a turn keeps the database intact, whatever the model and
-- the processors answer, and also where it fails.
use terra_translate.Base.{ℕ, Text, List, Bool, [], ◌∷◌, Option, none, some, Result}
use terra_translate.Model.{
  Bytes, GameId, GameIdentity, CommitId, EventId, CommitContent, BranchRef, ContextSnapshot,
  ContextHistoryEntry, Externals,
}
use terra_translate.Store.Schema.{SessionStore}
use terra_translate.Store.Exec.{Action, pure, query, modify, lift, ◌>>=◌, ◌>>◌}
use terra_translate.Store.Blobs.{put_blob}
use terra_translate.Store.Integrity.{RoundTrips, IsIntact, Keeps, after_action}
use terra_translate.Store.Keeping.{
  put_commit-Keeps, ensure_game-Keeps, advance_branch-Keeps, advance_game_branch-Keeps,
}
use terra_translate.Provider.{TranslationRequest}
use terra_translate.Prompt.Macros.{PromptExternals}
use terra_translate.Engine.Data.{TurnInput, TurnRequest, TranslationEngine, Gathered}
use terra_translate.Engine.Request.{turn_content}
use terra_translate.Engine.Turn.{
  advance_turn, enter_game, gather_input, gather_inputs, finish, ask, answer_turn, translate_turn,
}

module _ (ext : Externals) where
  lift-Keeps : {E F A : Type 0} (f : E → F) (m : Action E A) → Keeps ext m → Keeps ext (lift f m)
  unfolding lift
  lift-Keeps f m k = record { at = k.at }

  query-Keeps : {E A : Type 0} (q : SessionStore → Result E A) → Keeps ext (query q)
  unfolding query
  query-Keeps q = record { at = λ s v. v }

  pure-Keeps : {E A : Type 0} (a : A) → Keeps ext (pure {E = E} a)
  unfolding pure
  pure-Keeps a = record { at = λ s v. v }

  modify-Keeps :
      {E : Type 0} (f : SessionStore → SessionStore)
      → ((s : SessionStore) → IsIntact ext s → IsIntact ext (f s))
      → Keeps ext (modify {E = E} f)
  unfolding modify
  modify-Keeps f k = record { at = k }

  >>=-Keeps :
      {E A B : Type 0} (m : Action E A) (f : A → Action E B)
      → Keeps ext m
      → ((a : A) → Keeps ext (f a))
      → Keeps ext (m >>= f)
  >>=-Keeps m f k h = record { at = λ s v. after_action ext m f s k v λ a e w. (h a).at (m s).1 w }

  >>-Keeps :
      {E B : Type 0} (m : Action E (Unit {0})) (k : Action E B)
      → Keeps ext m
      → Keeps ext k
      → Keeps ext (m >> k)
  >>-Keeps m k p q = >>=-Keeps m (λ u. k) p λ u. q

  put_blob-Keeps : (bytes : Bytes) → Keeps ext (put_blob ext bytes)
  unfolding put_blob
  put_blob-Keeps bytes = >>=-Keeps _ _ (query-Keeps _) λ path.
      >>=-Keeps _ _ (modify-Keeps _ λ s v. record { grounded = v.grounded; anchored = v.anchored })
        λ u. pure-Keeps _

  advance_turn-Keeps :
      (game_id : Option GameId) (turn : TurnRequest) (expected new_head : CommitId)
      → Keeps ext (advance_turn ext game_id turn expected new_head)
  unfolding advance_turn
  advance_turn-Keeps none turn expected new_head =
      advance_branch-Keeps ext turn.branch expected new_head turn.created_at_ms
  advance_turn-Keeps (some game_id) turn expected new_head =
      advance_game_branch-Keeps ext game_id turn.branch expected new_head turn.created_at_ms

  pub enter_game-Keeps :
      RoundTrips ext
      → (game : Option GameIdentity) (turn : TurnRequest) → Keeps ext (enter_game ext game turn)
  unfolding enter_game
  enter_game-Keeps rt none turn = pure-Keeps tt
  enter_game-Keeps rt (some game) turn =
      lift-Keeps _ _ (ensure_game-Keeps ext rt game turn.created_at_ms)

module _ (ext : Externals) (elapsed : ℕ → ℕ) (json : Text → Text → Text) (event_id : ℕ → EventId)
    (pext : PromptExternals) (meanwhile : SessionStore → SessionStore)
    (engine : TranslationEngine) where
  pub gather_inputs-Keeps :
      (context : ContextSnapshot) (inputs : List TurnInput) (g : Gathered)
      → Keeps ext (gather_inputs ext elapsed json event_id pext meanwhile engine context inputs g)
  unfolding gather_inputs gather_input
  gather_inputs-Keeps context [] g = pure-Keeps ext g
  gather_inputs-Keeps context (input ∷ inputs) g =
      >>=-Keeps ext _ _
        (>>=-Keeps ext _ _ (lift-Keeps ext _ _ (put_blob-Keeps ext _)) λ digest. query-Keeps ext _)
        (gather_inputs-Keeps context inputs)

  finish-Keeps :
      RoundTrips ext
      → (turn : TurnRequest) (head : BranchRef) (content : CommitContent)
      → Keeps ext (finish ext elapsed json event_id pext meanwhile engine turn head content)
  unfolding finish
  finish-Keeps rt turn head content = >>=-Keeps ext _ _ (query-Keeps ext _) λ made.
      >>=-Keeps ext _ _ (lift-Keeps ext _ _ (put_commit-Keeps ext rt made)) λ u.
        >>=-Keeps ext _ _ (lift-Keeps ext _ _ (advance_turn-Keeps ext _ turn head.head made.id))
          λ advanced. >>=-Keeps ext _ _ (query-Keeps ext _) λ w. pure-Keeps ext made

  pub ask-Keeps :
      ((s : SessionStore) → IsIntact ext s → IsIntact ext (meanwhile s))
      → (turn : TurnRequest) (context : ContextSnapshot) (g : Gathered)
        (request : TranslationRequest)
      → Keeps ext (ask ext elapsed json event_id pext meanwhile engine turn context g request)
  unfolding ask
  ask-Keeps others turn context g request = >>-Keeps ext _ _ (modify-Keeps ext meanwhile others) (
      >>=-Keeps ext _ _ (query-Keeps ext _)
        λ response. >>=-Keeps ext _ _ (query-Keeps ext _) λ translated. pure-Keeps ext _)

  answer_turn-Keeps :
      RoundTrips ext
      → ((s : SessionStore) → IsIntact ext s → IsIntact ext (meanwhile s))
      → (turn : TurnRequest) (head : BranchRef)
        (prepared : ContextSnapshot × List ContextHistoryEntry × Bool)
      → Keeps ext (answer_turn ext elapsed json event_id pext meanwhile engine turn head prepared)
  unfolding answer_turn
  answer_turn-Keeps rt others turn head prepared =
      >>=-Keeps ext _ _ (gather_inputs-Keeps prepared.0 turn.inputs _) λ g.
        >>=-Keeps ext _ _ (query-Keeps ext _) λ request.
          >>=-Keeps ext _ _ (ask-Keeps others turn prepared.0 g request) λ answer.
            finish-Keeps rt turn head
              (turn_content ext engine turn head prepared.0 prepared.2 g answer.0 answer.1)

  translate_turn-Keeps :
      RoundTrips ext
      → ((s : SessionStore) → IsIntact ext s → IsIntact ext (meanwhile s))
      → (turn : TurnRequest)
      → Keeps ext (translate_turn ext elapsed json event_id pext meanwhile engine turn)
  unfolding translate_turn
  translate_turn-Keeps rt others turn = >>-Keeps ext _ _ (query-Keeps ext _) (
      >>-Keeps ext (enter_game ext engine.game turn) _ (enter_game-Keeps ext rt engine.game turn) (
        >>=-Keeps ext _ _ (query-Keeps ext _) λ head.
          >>=-Keeps ext _ _ (query-Keeps ext _) λ parent.
            >>=-Keeps ext _ _ (query-Keeps ext _)
              λ prepared. answer_turn-Keeps rt others turn head prepared))

  -- A turn keeps the database intact, whether it succeeds or fails and whatever the model and the
  -- processors answer, if the other connections keep it intact and commits read back as they were
  -- written.
  pub translate_turn-IsIntact :
      RoundTrips ext
      → ((s : SessionStore) → IsIntact ext s → IsIntact ext (meanwhile s))
      → (turn : TurnRequest) (s : SessionStore) → IsIntact ext s
      → IsIntact ext (translate_turn ext elapsed json event_id pext meanwhile engine turn s).1
  translate_turn-IsIntact rt others turn s v = (translate_turn-Keeps rt others turn).at s v
