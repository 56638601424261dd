-- ===== src/Engine/Advance.antt =====
-- crates/terratranslate-engine/src/lib.rs: what a turn that succeeds has done to the database.
use terra_translate.Base.{
  ℕ, Text, List, [], ◌∷◌, Bool, true, false, Option, none, some, Result, ok, err, out_of_fuel,
  map_err, ensure, ◌≡◌, refl, sym, ap, ◌∙◌,
}
use terra_translate.Model.{
  GameId, CommitId, EventId, TranslationCommit, CommitContent, BranchRef, ContextSnapshot,
  ContextHistoryEntry, ProcessorTrace, Externals, IsCollisionFree, verify_id, create,
  verify_id-create,
}
use terra_translate.Store.Schema.{SessionStore, default_game_id, BranchRow}
use terra_translate.Store.Read.{get_commit, find_branch}
use terra_translate.Store.Exec.{pure, query, lift, after_ok}
use terra_translate.Store.Write.{put_commit}
use terra_translate.Store.Integrity.{RoundTrips, IsIntact}
use terra_translate.Store.Heads.{IsAdvanced, advance_branch_moved, advance_game_branch_moved}
use terra_translate.Store.RoundTrip.{get_commit-put_commit}
use terra_translate.Provider.{TranslationResponse}
use terra_translate.Prompt.Macros.{PromptExternals}
use terra_translate.Engine.Data.{
  EngineError, store, branch_moved, empty_turn, TurnRequest, TranslationEngine, Gathered,
}
use terra_translate.Engine.Context.{prepare_context}
use terra_translate.Engine.Gather.{empty_gathered}
use terra_translate.Engine.Request.{turn_content, build_request}
use terra_translate.Engine.Keeping.{gather_inputs-Keeps, ask-Keeps, enter_game-Keeps}
use terra_translate.Engine.Turn.{
  advance_turn, turn_branch, enter_game, game_id, is_nonempty, gather_inputs, finish, ask,
  answer_turn, translate_turn,
}

-- The game whose branch a turn moves.
abbrev pub or_default : Option GameId → GameId
or_default none = default_game_id
or_default (some id) = id

map_err_ok : {E F A : Type 0} (f : E → F) (r : Result E A) {a : A} → map_err f r ≡ ok a → r ≡ ok a
map_err_ok f (ok x) h = cc
map_err_ok f (err e) h = cc
map_err_ok f out_of_fuel h = cc

ensured : (b : Bool) (u : Unit {0}) → ensure {E = EngineError} b branch_moved ≡ ok u → b ≡ true
ensured true u h = refl
ensured false u h = cc

advance_turn_moved :
    (ext : Externals) (game : Option GameId) (turn : TurnRequest) (expected new_head : CommitId)
    (s : SessionStore)
    → (advance_turn ext game turn expected new_head s).0 ≡ ok true
    → IsAdvanced ext
        (or_default game)
        turn.branch
        expected
        new_head
        turn.created_at_ms
        s
        (advance_turn ext game turn expected new_head s).1
unfolding advance_turn
advance_turn_moved ext none turn expected new_head s h =
    advance_branch_moved ext turn.branch expected new_head turn.created_at_ms s h
advance_turn_moved ext (some id) turn expected new_head s h =
    advance_game_branch_moved ext id turn.branch expected new_head turn.created_at_ms s h

module _ (ext : Externals) (elapsed : ℕ → ℕ) (json : Text → Text → Text) (event_id : ℕ → EventId)
    (pext : PromptExternals) (meanwhile : SessionStore → SessionStore)
    (engine : TranslationEngine) where
  -- What `finish` did to the store `s`, which it left as `t`.
  pub record IsFinished (turn : TurnRequest) (head : BranchRef) (content : CommitContent)
      (k : TranslationCommit) (s t : SessionStore) : Type 0 where
    pub made : create ext content ≡ ok k
    pub put : (put_commit ext k s).0 ≡ ok tt
    pub advanced :
        IsAdvanced ext
          (or_default (game_id engine))
          turn.branch
          head.head
          k.id
          turn.created_at_ms
          (put_commit ext k s).1
          t

  finish-IsFinished :
      (turn : TurnRequest) (head : BranchRef) (content : CommitContent) (k : TranslationCommit)
      (s : SessionStore)
      → (finish ext elapsed json event_id pext meanwhile engine turn head content s).0 ≡ ok k
      → IsFinished turn head content k s
          (finish ext elapsed json event_id pext meanwhile engine turn head content s).1
  unfolding finish query lift pure
  finish-IsFinished turn head content k s h =
      let (made, e, h1, s1) =
        after_ok (query λ s'. map_err EngineError.commit (create ext content)) _ s h in
      let (u, put, h2, s2) = after_ok (lift store (put_commit ext made)) _ s h1 in
      let (advanced, a, h3, s3) =
        after_ok (lift store (advance_turn ext (game_id engine) turn head.head made.id)) _ _ h2 in
      let (w, moved, h4, s4) = after_ok (query λ s'. ensure advanced branch_moved) _ _ h3 in
      let same : made ≡ k = cc h4 in
      rw (s1, s2, s3, s4, sym same)
        (record {
          made = map_err_ok EngineError.commit (create ext content) e;
          put = map_err_ok store (put_commit ext made s).0 put;
          advanced =
              advance_turn_moved ext (game_id engine) turn head.head made.id
                (put_commit ext made s).1 (map_err_ok store _ a ∙ ap ok (ensured advanced w moved));
        })

  -- What a turn that succeeded did: the branch was at `head`, the new commit is verified, can be
  -- got, has `head` as its only parent, and is the head of the branch now.
  pub record IsTurn (turn : TurnRequest) (k : TranslationCommit) (s t : SessionStore) : Type 0 where
    pub head : BranchRef
    pub was_head :
        turn_branch (enter_game ext engine.game turn s).1 (game_id engine) turn.branch ≡ ok head
    pub only_parent : k.parents ≡ head.head ∷ []
    pub verified : verify_id ext k ≡ ok true
    pub stored : get_commit ext t k.id ≡ ok k
    pub row : BranchRow
    pub is_head :
        find_branch (or_default (game_id engine)) turn.branch t.game_branches
        ≡ some (record row { head_id = k.id; updated_at_ms = turn.created_at_ms })

  -- What led to the commit of a turn that succeeded: the answer of the model, and the store
  -- `before` that `finish` found.
  pub record IsClosed (turn : TurnRequest) (head : BranchRef)
      (prepared : ContextSnapshot × List ContextHistoryEntry × Bool) (k : TranslationCommit)
      (t : SessionStore) : Type 0 where
    pub g : Gathered
    pub response : TranslationResponse
    pub translated : Text × List ProcessorTrace
    pub before : SessionStore
    pub intact : RoundTrips ext → IsIntact ext before
    pub finished :
        IsFinished turn head
          (turn_content ext engine turn head prepared.0 prepared.2 g response translated)
          k
          before
          t

  answer_turn-IsClosed :
      ((s : SessionStore) → IsIntact ext s → IsIntact ext (meanwhile s))
      → (turn : TurnRequest) (head : BranchRef)
        (prepared : ContextSnapshot × List ContextHistoryEntry × Bool) (k : TranslationCommit)
        (s : SessionStore)
      → (RoundTrips ext → IsIntact ext s)
      → (answer_turn ext elapsed json event_id pext meanwhile engine turn head prepared s).0 ≡ ok k
      → IsClosed turn head prepared k
          (answer_turn ext elapsed json event_id pext meanwhile engine turn head prepared s).1
  unfolding answer_turn query
  answer_turn-IsClosed others turn head prepared k s v h =
      let gather =
        gather_inputs ext elapsed json event_id pext meanwhile engine prepared.0 turn.inputs
          empty_gathered in
      let (g, _, h1, s1) = after_ok gather _ s h in
      let (request, _, h2, s2) =
        after_ok (query λ s'. build_request pext engine turn prepared.0 prepared.1 g) _ _ h1 in
      let asked = ask ext elapsed json event_id pext meanwhile engine turn prepared.0 g request in
      let (answer, _, h3, s3) = after_ok asked _ _ h2 in
      rw (s1, s2, s3)
        (record {
          g = g;
          response = answer.0;
          translated = answer.1;
          before = (asked (gather s).1).1;
          intact = λ rt.
              (ask-Keeps ext elapsed json event_id pext meanwhile engine others turn prepared.0 g
                  request).at
                _
                ((gather_inputs-Keeps ext elapsed json event_id pext meanwhile engine prepared.0
                    turn.inputs empty_gathered).at
                  s (v rt));
          finished = finish-IsFinished turn head _ k _ h3;
        })

  -- What led to the call of `answer_turn`.
  pub record IsRun (turn : TurnRequest) (k : TranslationCommit) (s t : SessionStore) : Type 0 where
    pub head : BranchRef
    pub found :
        turn_branch (enter_game ext engine.game turn s).1 (game_id engine) turn.branch ≡ ok head
    pub parent : TranslationCommit
    pub prepared : ContextSnapshot × List ContextHistoryEntry × Bool
    pub prepares :
        prepare_context ext
          (enter_game ext engine.game turn s).1
          parent.context
          turn.context_mode
          (game_id engine)
          turn.branch
        ≡ ok prepared
    pub closed : IsClosed turn head prepared k t

  pub translate_turn-IsRun :
      ((s : SessionStore) → IsIntact ext s → IsIntact ext (meanwhile s))
      → (turn : TurnRequest) (k : TranslationCommit) (s : SessionStore) → IsIntact ext s
      → (translate_turn ext elapsed json event_id pext meanwhile engine turn s).0 ≡ ok k
      → IsRun turn k s (translate_turn ext elapsed json event_id pext meanwhile engine turn s).1
  unfolding translate_turn query
  translate_turn-IsRun others turn k s v h =
      let (u1, _, h1, s1) =
        after_ok (query λ s'. ensure (is_nonempty turn.inputs) empty_turn) _ s h in
      let entered = (enter_game ext engine.game turn s).1 in
      let (u2, _, h2, s2) = after_ok (enter_game ext engine.game turn) _ s h1 in
      let (head, found, h3, s3) =
        after_ok (query λ s'. map_err store (turn_branch s' (game_id engine) turn.branch)) _ _ h2 in
      let (parent, _, h4, s4) =
        after_ok (query λ s'. map_err store (get_commit ext s' head.head)) _ _ h3 in
      let (prepared, prepares, h5, s5) =
        after_ok
          (query λ s'.
            prepare_context ext s' parent.context turn.context_mode (game_id engine) turn.branch)
          _ _ h4 in
      rw (s1, s2, s3, s4, s5)
        (record {
          head = head;
          found = map_err_ok store (turn_branch entered (game_id engine) turn.branch) found;
          parent = parent;
          prepared = prepared;
          prepares = prepares;
          closed =
              answer_turn-IsClosed others turn head prepared k entered
                (λ rt. (enter_game-Keeps ext rt engine.game turn).at s v) h5;
        })

  get_same :
      (k : TranslationCommit) (t u : SessionStore)
      → t.commits ≡ u.commits
      → get_commit ext u k.id ≡ ok k
      → get_commit ext t k.id ≡ ok k
  unfolding get_commit
  get_same k t u e h = rw e h

  run-IsTurn :
      RoundTrips ext
      → IsCollisionFree ext
      → (turn : TurnRequest) (k : TranslationCommit) (s t : SessionStore) → IsRun turn k s t
      → IsTurn turn k s t
  unfolding turn_content
  run-IsTurn rt cf turn k s t run =
      let done = run.closed.finished in
      let made = verify_id-create ext _ k done.made in
      record {
        head = run.head;
        was_head = run.found;
        only_parent = ap (λ c. c.parents) made.1;
        verified = made.0;
        stored =
            get_same k t (put_commit ext k run.closed.before).1 done.advanced.same_commits
              (get_commit-put_commit ext rt cf k run.closed.before (run.closed.intact rt) done.put);
        row = done.advanced.head_moved.row;
        is_head = done.advanced.head_moved.moved;
      }

  -- If a turn on an intact database succeeds, its branch existed after the game was registered,
  -- the commit that is returned is verified and can be got under its ID, it has the head of the
  -- branch as its only parent, and it is the head of the branch now, if commits read back as they
  -- were written, digests and encodings do not collide, and the other connections that work on the
  -- database meanwhile keep it intact.
  pub translate_turn-IsTurn :
      RoundTrips ext
      → IsCollisionFree ext
      → ((s : SessionStore) → IsIntact ext s → IsIntact ext (meanwhile s))
      → (turn : TurnRequest) (k : TranslationCommit) (s : SessionStore) → IsIntact ext s
      → (translate_turn ext elapsed json event_id pext meanwhile engine turn s).0 ≡ ok k
      → IsTurn turn k s (translate_turn ext elapsed json event_id pext meanwhile engine turn s).1
  translate_turn-IsTurn rt cf others turn k s v h =
      run-IsTurn rt cf turn k s _ (translate_turn-IsRun others turn k s v h)
