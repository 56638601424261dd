-- ===== src/Replay/Candidates.antt =====
-- crates/terratranslate-engine/src/replay.rs: what `find_resume_candidates` returns.
use mathlib.Core.List.{Permᴰ}
use mathlib.Core.List.Permᴰ
use terra_translate.Base.{
  ℕ, Text, List, [], ◌∷◌, map, length, Option, Option-cases, some, ◌≡◌, sym, arith, inl, inr, In,
  ◌∙◌, ap, subst,
}
use terra_translate.Base.OrdMap.{OrdMap, IsSorted}
use terra_translate.Base.OrdMap
use terra_translate.Base.Lex.{In-sort_by, sort_by-In, In-map, map-In, In-Permᴰ}
use terra_translate.Model.{GameId}
use terra_translate.Signature.{TurnSignature}
use terra_translate.Store.Schema.{SessionStore, ReplayPath}
use terra_translate.Replay.Cursor.{ResumeCandidate}
use terra_translate.Replay.Resume.{
  Raw, raws, enter_all, candidate_of, candidate_cmp, find_resume_candidates,
}
use terra_translate.Replay.Reading.{IsOccurrence}
use terra_translate.Replay.Occurrences.{
  IsFound, raws-IsFound, IsFound-raws, Holds, enter_all-Holds, enter_all_complete, get_of_In-values,
  In-values,
}

-- The occurrence that a candidate stands for.
abbrev pub occurrence_of : ResumeCandidate → Raw
occurrence_of c = record {
  branch = c.branch;
  start = c.next_index;
  matched = c.matched_turns;
  next = c.next_commit_id;
  selected = c.commit_id;
}

injected : (v w : Raw) → some v ≡ some w → v ≡ w
injected v w e = ground arith

module _ (arrange : List Raw → List Raw) (rearranges : (l : List Raw) → Permᴰ (arrange l) l)
    (to_lowercase : ℕ → Text) (s : SessionStore) (paths : List ReplayPath) (o : TurnSignature)
    (os : List TurnSignature) (game_id : Option GameId) where
  abbrev pub table : OrdMap Raw
  table = enter_all (raws to_lowercase s o os paths) []

  abbrev pub values : List Raw
  values = map (λ e. e.1) table

  abbrev pub candidates : List ResumeCandidate
  candidates = find_resume_candidates arrange to_lowercase s paths (o ∷ os) game_id

  table-Holds : Holds (raws to_lowercase s o os paths) table
  unfolding OrdMap.get
  table-Holds =
      enter_all-Holds _ (raws to_lowercase s o os paths) [] (λ r h. h)
        (record { sorted = tt; keyed = λ k v e. cc })

  -- A candidate stands for a value of the table.
  candidate_value :
      (c : ResumeCandidate)
      → In c candidates
      → (v : Raw) × In v values × (candidate_of game_id (length values) v ≡ c)
  unfolding find_resume_candidates
  candidate_value c h =
      let (v, at, e) =
        In-map (candidate_of game_id (length values)) c (arrange values)
          (In-sort_by candidate_cmp c _ h) in
      (v, In-Permᴰ (rearranges values) v at, e)

  value_candidate : (v : Raw) → In v values → In (candidate_of game_id (length values) v) candidates
  unfolding find_resume_candidates
  value_candidate v h = sort_by-In candidate_cmp _ _ (
      map-In (candidate_of game_id (length values)) v (arrange values)
        (In-Permᴰ (Permᴰ.symm (rearranges values)) v h))

  pub value_held :
      (v : Raw)
      → In v values
      → (OrdMap.get v.next table ≡ some v) × In v (raws to_lowercase s o os paths)
  value_held v h =
      let (k, at) = get_of_In-values v table table-Holds.sorted h in
      let (next, found) = table-Holds.keyed k v at in
      (subst (λ j. OrdMap.get j table ≡ some v) (sym next) at, found)

  -- A candidate is an occurrence of all observed turns in one of the paths.
  candidate-IsFound :
      (c : ResumeCandidate)
      → In c candidates
      → IsFound to_lowercase s o os paths (occurrence_of c) × (c.game_id ≡ game_id)
  candidate-IsFound c h =
      let (v, at, e) = candidate_value c h in
      let found = raws-IsFound to_lowercase s o os paths v (value_held v at).1 in
      (
        subst (λ x. IsFound to_lowercase s o os paths (occurrence_of x)) e found,
        ap (λ (x : ResumeCandidate). x.game_id) (sym e),
      )

  -- Every occurrence has a candidate with its next commit.
  occurrence_candidate :
      (path : ReplayPath) (r : Raw)
      → In path paths
      → IsOccurrence to_lowercase s o os path r
      → (c : ResumeCandidate) × In c candidates × (c.next_commit_id ≡ r.next)
  occurrence_candidate path r h w =
      let (f, at, same) = IsFound-raws to_lowercase s o os paths path r h w in
      elim (Option-cases (OrdMap.get f.next table)) [
        | inl missing ↦ absurd (enter_all_complete f (raws to_lowercase s o os paths) [] at missing)
        | inr (v, found) ↦ (
          candidate_of game_id (length values) v,
          value_candidate v (In-values f.next v table found),
          (table-Holds.keyed f.next v found).0 ∙ same,
        )
      ]

  -- Candidates with one next commit are the same.
  candidate_unique :
      (c d : ResumeCandidate)
      → In c candidates
      → In d candidates
      → c.next_commit_id ≡ d.next_commit_id
      → c ≡ d
  candidate_unique c d hc hd same =
      let (v, at, e) = candidate_value c hc in
      let (w, at', e') = candidate_value d hd in
      let next : v.next ≡ w.next =
        ap (λ (x : ResumeCandidate). x.next_commit_id) e
        ∙ (same ∙ ap (λ (x : ResumeCandidate). x.next_commit_id) (sym e')) in
      let here = (value_held v at).0 in
      let there = (value_held w at').0 in
      let one : v ≡ w = injected v w (sym here ∙ (ap (λ k. OrdMap.get k table) next ∙ there)) in
      sym e ∙ (ap (candidate_of game_id (length values)) one ∙ e')

  -- What the search promises.
  pub record IsSearched : Type 0 where
    pub sound :
        (c : ResumeCandidate)
        → In c candidates
        → IsFound to_lowercase s o os paths (occurrence_of c) × (c.game_id ≡ game_id)
    pub complete :
        (path : ReplayPath) (r : Raw)
        → In path paths
        → IsOccurrence to_lowercase s o os path r
        → (c : ResumeCandidate) × In c candidates × (c.next_commit_id ≡ r.next)
    pub unique :
        (c d : ResumeCandidate)
        → In c candidates
        → In d candidates
        → c.next_commit_id ≡ d.next_commit_id
        → c ≡ d

  -- Every candidate is an occurrence of all observed turns in one of the paths: from the commit after
  -- the selected one on, the translatable commits of the path have the observed signatures. Every
  -- such occurrence in a path has a candidate with its first commit, and only one; whatever the order
  -- in which the `HashMap` is iterated over.
  pub candidates-IsSearched : IsSearched
  candidates-IsSearched = record {
    sound = candidate-IsFound;
    complete = occurrence_candidate;
    unique = candidate_unique;
  }
