-- ===== src/Replay/Resume.antt =====
-- crates/terratranslate-engine/src/replay.rs: `find_resume_candidates`, which looks for the turns that
-- were observed in the history.
use terra_translate.Base.{
  ℕ, suc, ◌+◌, ◌-◌, Text, Text-discrete, text_cmp, txt, List, [], ◌∷◌, ◌++◌, map, length, get_elem?,
  Bool, true, false, ◌==◌, Ordering, compare, Option, none, some, ite, if◌then◌else◌,
}
use terra_translate.Base.OrdMap.{OrdMap}
use terra_translate.Base.OrdMap
use terra_translate.Base.Sort.{sort_by}
use terra_translate.Base.Lex.{then_with}
use terra_translate.Model.{GameId, CommitId, TranslationCommit}
use terra_translate.Signature.{TurnSignature, TurnSignature-discrete}
use terra_translate.Store.Schema.{SessionStore, ReplayPath}
use terra_translate.Store.Blobs.{is_structural_commit, commit_replay_signature}
use terra_translate.Replay.Cursor.{ResumeCandidate}

-- An occurrence of the observed turns in a path.
pub record Raw : Type 0 where
  pub branch : Text
  pub start : ℕ
  pub matched : ℕ
  pub next : CommitId
  pub selected : CommitId

-- A translatable commit, with its index in the path and its signature.
abbrev pub Entry : Type 0
Entry = ℕ × TranslationCommit × TurnSignature

module _ (to_lowercase : ℕ → Text) (s : SessionStore) where
  -- `translatable`, from the index `i` on
  unfoldable pub entries_from : ℕ → List TranslationCommit → List Entry
  entries_from i [] = []
  entries_from i (k ∷ ks) =
      let rest = entries_from (suc i) ks in
      let found : List Entry = elim (commit_replay_signature to_lowercase s k) [
        | none ↦ rest
        | some signature ↦ (i, k, signature) ∷ rest
      ] in
      if is_structural_commit k then rest else found

-- The `while` loop: how many of the observed turns go on to match.
unfoldable pub count_matched : List TurnSignature → List Entry → ℕ
count_matched [] entries = 0
count_matched (o ∷ os) [] = 0
count_matched (o ∷ os) (e ∷ entries) =
    let more = suc (count_matched os entries) in ite (TurnSignature-discrete e.2 o) more 0

-- The ID of the commit before the index; a path has one there if it has a commit at the index.
unfoldable pub id_before : ℕ → List TranslationCommit → CommitId
id_before i commits = elim (get_elem? commits (i - 1)) [ none ↦ [] | some k ↦ k.id ]

-- The body of the loop over `start`: the entry at the start, and those after it.
unfoldable pub raw_at :
    ReplayPath → TurnSignature → List TurnSignature → Entry → List Entry → Option Raw
unfolding count_matched id_before
raw_at path o os (i, k, signature) later =
    let matched = 1 + count_matched os later in
    ite (TurnSignature-discrete signature o)
      (if matched == length (o ∷ os)
        then (if i == 0
            then none
            else some (record {
              branch = path.branch.name;
              start = i;
              matched = matched;
              next = k.id;
              selected = id_before i path.commits;
            }))
        else none)
      none

unfoldable pub raws_from : ReplayPath → TurnSignature → List TurnSignature → List Entry → List Raw
unfolding raw_at
raws_from path o os [] = []
raws_from path o os (e ∷ later) =
    let rest = raws_from path o os later in
    elim (raw_at path o os e later) [ none ↦ rest | some raw ↦ raw ∷ rest ]

module _ (to_lowercase : ℕ → Text) (s : SessionStore) where
  -- `raw`
  unfoldable pub raws : TurnSignature → List TurnSignature → List ReplayPath → List Raw
  unfolding entries_from raws_from
  raws o os [] = []
  raws o os (path ∷ paths) =
      raws_from path o os (entries_from to_lowercase s 0 path.commits) ++ raws o os paths

abbrev pub is_main : Text → Bool
is_main branch = ite (Text-discrete branch (txt "main")) true false

-- `candidate.branch < existing.branch`
abbrev pub is_below : Text → Text → Bool
is_below a b = elim (text_cmp a b) [ Ordering.lt ↦ true | _ ↦ false ]

-- Whether a candidate replaces the one with the same next commit.
unfoldable pub replaces : Raw → Raw → Bool
replaces candidate existing = elim (compare candidate.matched existing.matched) [
  | Ordering.gt ↦ true
  | Ordering.lt ↦ false
  | Ordering.eq ↦
      if is_main candidate.branch
      then (if is_main existing.branch then is_below candidate.branch existing.branch else true)
      else is_below candidate.branch existing.branch
]

-- One round of the loop over `raw`.
unfoldable pub enter : Raw → OrdMap Raw → OrdMap Raw
unfolding replaces
enter candidate by_commit = elim (OrdMap.get candidate.next by_commit) [
  | none ↦ OrdMap.insert candidate.next candidate by_commit
  | some existing ↦
      if replaces candidate existing
      then OrdMap.insert candidate.next candidate by_commit
      else by_commit
]

-- `by_commit`
unfoldable pub enter_all : List Raw → OrdMap Raw → OrdMap Raw
unfolding enter
enter_all [] by_commit = by_commit
enter_all (candidate ∷ rest) by_commit = enter_all rest (enter candidate by_commit)

abbrev pub candidate_of : Option GameId → ℕ → Raw → ResumeCandidate
candidate_of game_id occurrence_count raw = record {
  game_id = game_id;
  branch = raw.branch;
  commit_id = raw.selected;
  next_commit_id = raw.next;
  next_index = raw.start;
  matched_turns = raw.matched;
  occurrence_count = occurrence_count;
}

-- `false` is below `true`.
abbrev pub main_rank : Text → ℕ
main_rank branch = if is_main branch then 0 else 1

-- The comparison that `sort_by` is given.
unfoldable pub candidate_cmp : ResumeCandidate → ResumeCandidate → Ordering
unfolding text_cmp
candidate_cmp left right = then_with (compare right.matched_turns left.matched_turns) (
    then_with (compare left.occurrence_count right.occurrence_count) (
      then_with (compare (main_rank left.branch) (main_rank right.branch)) (
        then_with (text_cmp left.branch right.branch)
          (text_cmp left.next_commit_id right.next_commit_id))))

-- A `HashMap` is iterated over in an order of its own, `arrange`.
module _ (arrange : List Raw → List Raw) (to_lowercase : ℕ → Text) (s : SessionStore) where
  -- `find_resume_candidates`
  unfoldable pub find_resume_candidates :
      List ReplayPath → List TurnSignature → Option GameId → List ResumeCandidate
  unfolding raws enter_all sort_by candidate_cmp
  find_resume_candidates paths [] game_id = []
  find_resume_candidates paths (o ∷ os) game_id =
      let by_commit = enter_all (raws to_lowercase s o os paths) [] in
      let values = map (λ e. e.1) by_commit in
      sort_by candidate_cmp (map (candidate_of game_id (length values)) (arrange values))

  -- `rank_resume_candidates`
  unfoldable pub rank_resume_candidates :
      List ReplayPath → List TurnSignature → List ResumeCandidate
  unfolding find_resume_candidates
  rank_resume_candidates paths observed = find_resume_candidates paths observed none

-- `uniquely_identified`, with `is_unambiguous`
unfoldable pub uniquely_identified : List ResumeCandidate → Bool
uniquely_identified (c ∷ []) = c.occurrence_count == 1
uniquely_identified _ = false
