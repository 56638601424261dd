-- ===== src/Replay/Cursor.antt =====
-- crates/terratranslate-engine/src/replay.rs: `ReplayCursor` and its steps.
use terra_translate.Base.{
  ℕ, suc, ◌+◌, Text, Text-discrete, List, [], ◌∷◌, length, get_elem?, drop, all, Bool, true, ltb,
  leb, Option, none, some, ite, if◌then◌else◌,
}
use terra_translate.Model.{GameId, CommitId, TranslationCommit}
use terra_translate.Signature.{TurnSignature, TurnSignature-discrete}
use terra_translate.Store.Schema.{SessionStore, ReplayPath}
use terra_translate.Store.Blobs.{is_structural_commit, commit_replay_signature}

pub record ResumeCandidate : Type 0 where
  pub game_id : Option GameId
  pub branch : Text
  pub commit_id : CommitId
  pub next_commit_id : CommitId
  pub next_index : ℕ
  pub matched_turns : ℕ
  pub occurrence_count : ℕ

pub record ReplayCursor : Type 0 where
  pub game_id : Option GameId
  pub branch : Text
  pub path : List TranslationCommit
  pub position : ℕ

pub data ReplayStep : Type 0 where
  matched : TranslationCommit → ReplayStep
  at_head : ReplayStep
  diverged : CommitId → ReplayStep
  unavailable : ReplayStep

-- `iter().position(|commit| &commit.id == selected_commit)`
unfoldable pub position_of : CommitId → List TranslationCommit → Option ℕ
position_of id [] = none
position_of id (k ∷ ks) =
    let rest : Option ℕ = elim (position_of id ks) [ none ↦ none | some n ↦ some (suc n) ] in
    ite (Text-discrete k.id id) (some 0) rest

-- `ReplayCursor::new`, and `from_path`
unfoldable pub new : ReplayPath → CommitId → Option ReplayCursor
unfolding position_of
new path selected = elim (position_of selected path.commits) [
  | none ↦ none
  | some n ↦
      some (record { game_id = none; branch = path.branch.name; path = path.commits; position = n })
]

-- `candidate_path`
unfoldable pub candidate_path : List ReplayPath → ResumeCandidate → Option ReplayPath
candidate_path [] candidate = none
candidate_path (path ∷ paths) candidate =
    ite (Text-discrete path.branch.name candidate.branch) (some path)
      (candidate_path paths candidate)

-- `ReplayCursor::for_candidate`
unfoldable pub for_candidate : List ReplayPath → ResumeCandidate → Option ReplayCursor
unfolding candidate_path new
for_candidate paths candidate = elim (candidate_path paths candidate) [
  | none ↦ none
  | some path ↦ elim (new path candidate.commit_id) [
    | none ↦ none
    | some cursor ↦ some (record cursor { game_id = candidate.game_id })
  ]
]

-- `ReplayCursor::current_commit`; `none` is the panic of an index out of bounds.
unfoldable pub current_commit : ReplayCursor → Option TranslationCommit
current_commit c = get_elem? c.path c.position

-- `ReplayCursor::at_head`
unfoldable pub is_at_head : ReplayCursor → Bool
is_at_head c = leb (length c.path) (c.position + 1)

-- `ReplayCursor::at_translatable_head`
unfoldable pub is_at_translatable_head : ReplayCursor → Bool
unfolding is_structural_commit
is_at_translatable_head c =
    if ltb (length c.path) (c.position + 1)
    then true
    else all is_structural_commit (drop (c.position + 1) c.path)

-- The `while` loop of `step`, over the commits from the one after `position` on: the position, and
-- the commits that are left, the first of them translatable.
unfoldable pub skip_structural : ℕ → List TranslationCommit → ℕ × List TranslationCommit
unfolding is_structural_commit
skip_structural position [] = (position, [])
skip_structural position (k ∷ ks) =
    let skipped = skip_structural (suc position) ks in
    if is_structural_commit k then skipped else (position, k ∷ ks)

module _ (to_lowercase : ℕ → Text) where
  abbrev pub compared :
      ReplayCursor
      → ℕ
      → TranslationCommit
      → Option TurnSignature
      → TurnSignature
      → ReplayCursor × Option ReplayStep
  compared c position k none observed = (record c { position = position }, some unavailable)
  compared c position k (some expected) observed =
      ite (TurnSignature-discrete expected observed)
        (record c { position = suc position }, some (matched k))
        (
          record c { position = position },
          elim (get_elem? c.path position) [
            | none ↦ none
            | some current ↦ some (diverged current.id)
          ],
        )

  abbrev pub stepped :
      SessionStore
      → TurnSignature
      → ReplayCursor
      → ℕ × List TranslationCommit
      → ReplayCursor × Option ReplayStep
  stepped s observed c (position, []) = (record c { position = position }, some at_head)
  stepped s observed c (position, k ∷ ks) =
      compared c position k (commit_replay_signature to_lowercase s k) observed

  -- `ReplayCursor::step`, and `advance`; no step is a panic.
  unfoldable pub step :
      SessionStore → TurnSignature → ReplayCursor → ReplayCursor × Option ReplayStep
  unfolding skip_structural commit_replay_signature
  step s observed c =
      stepped s observed c (skip_structural c.position (drop (c.position + 1) c.path))
