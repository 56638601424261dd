-- ===== src/Store/History.antt =====
-- crates/terratranslate-store/src/lib.rs: any sequence of the methods, from a new database.
use terra_translate.Base.{ℤ, Text, List, [], ◌∷◌}
use terra_translate.Model.{
  GameId, GameIdentity, CommitId, TranslationCommit, ContextSnapshot, Externals,
}
use terra_translate.Store.Schema.{SessionStore}
use terra_translate.Store.Write.{
  put_commit, create_game_branch, advance_branch, advance_game_branch, ensure_game,
  create_game_merge_commit,
}
use terra_translate.Store.Open.{initialize, no_rows}
use terra_translate.Store.Integrity.{IsIntact, RoundTrips}
use terra_translate.Store.Keeping.{
  put_commit-Keeps, create_game_branch-Keeps, advance_branch-Keeps, advance_game_branch-Keeps,
  ensure_game-Keeps, create_game_merge_commit-Keeps,
}

-- A call of one of the methods that change the database, with its arguments.
pub data Call : Type 0 where
  ensures_game : GameIdentity → ℤ → Call
  creates_game_branch : GameId → Text → CommitId → ℤ → Call
  puts_commit : TranslationCommit → Call
  advances_branch : Text → CommitId → CommitId → ℤ → Call
  advances_game_branch : GameId → Text → CommitId → CommitId → ℤ → Call
  creates_merge : GameId → CommitId → CommitId → ContextSnapshot → ℤ → Text → Call

module _ (ext : Externals) where
  -- The store after the call, whatever it returns.
  unfoldable pub after : Call → SessionStore → SessionStore
  after (ensures_game identity at) s = (ensure_game ext identity at s).1
  after (creates_game_branch game_id name head at) s =
      (create_game_branch ext game_id name head at s).1
  after (puts_commit commit) s = (put_commit ext commit s).1
  after (advances_branch name expected new_head at) s =
      (advance_branch ext name expected new_head at s).1
  after (advances_game_branch game_id name expected new_head at) s =
      (advance_game_branch ext game_id name expected new_head at s).1
  after (creates_merge game_id left right context at message) s =
      (create_game_merge_commit ext game_id left right context at message s).1

  unfoldable pub run : List Call → SessionStore → SessionStore
  unfolding after
  run [] s = s
  run (c ∷ cs) s = run cs (after c s)

  after-IsIntact :
      RoundTrips ext → (c : Call) (s : SessionStore) → IsIntact ext s → IsIntact ext (after c s)
  unfolding after
  after-IsIntact rt (ensures_game i at) s v = (ensure_game-Keeps ext rt i at).at s v
  after-IsIntact rt (creates_game_branch g n h at) s v =
      (create_game_branch-Keeps ext g n h at).at s v
  after-IsIntact rt (puts_commit k) s v = (put_commit-Keeps ext rt k).at s v
  after-IsIntact rt (advances_branch n e h at) s v = (advance_branch-Keeps ext n e h at).at s v
  after-IsIntact rt (advances_game_branch g n e h at) s v =
      (advance_game_branch-Keeps ext g n e h at).at s v
  after-IsIntact rt (creates_merge g l r c at m) s v =
      (create_game_merge_commit-Keeps ext rt g l r c at m).at s v

  run_keeps :
      RoundTrips ext
      → (cs : List Call) (s : SessionStore) → IsIntact ext s
      → IsIntact ext (run cs s)
  unfolding run
  run_keeps rt [] s v = v
  run_keeps rt (c ∷ cs) s v = run_keeps rt cs (after c s) (after-IsIntact rt c s v)

  new-IsIntact : IsIntact ext (initialize no_rows)
  unfolding initialize
  new-IsIntact = record { grounded = tt; anchored = tt }

  -- After any sequence of calls on a new database, failing ones included, every stored body is a
  -- verified commit under its own ID whose parents are stored, and every branch row has a
  -- registered game and a stored head, if commits read back as they were written.
  pub run-IsIntact : RoundTrips ext → (cs : List Call) → IsIntact ext (run cs (initialize no_rows))
  run-IsIntact rt cs = run_keeps rt cs (initialize no_rows) new-IsIntact
