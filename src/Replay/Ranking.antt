-- ===== src/Replay/Ranking.antt =====
-- crates/terratranslate-engine/src/replay.rs: the ranking of candidates does not depend on the order in
-- which the `HashMap` is iterated over.
use mathlib.Core.List.{Permᴰ}
use mathlib.Core.List.Permᴰ
use mathlib.Core.List.Perm
use terra_translate.Base.{
  ℕ, ℕ_discrete, Text, text_cmp, List, [], ◌∷◌, map, length, Option, none, some, ◌≡◌, refl, sym,
  arith, inl, inr, In, ◌∙◌, ap, Ordering, compare,
}
use terra_translate.Base.OrdMap.{OrdMap}
use terra_translate.Base.OrdMap
use terra_translate.Base.Sort.{sort_by, IsTotalOrder, sort_by-eq_of_Perm}
use terra_translate.Base.Lex.{
  In-Permᴰ, IsOrder, key-IsOrder, then_with-IsOrder, compare-IsTotalOrder, flipped-IsTotalOrder,
  text_cmp-IsTotalOrder, sort_by-map,
}
use terra_translate.Model.{GameId, CommitId}
use terra_translate.Signature.{TurnSignature}
use terra_translate.Store.Schema.{SessionStore, ReplayPath}
use terra_translate.Replay.Cursor.{ResumeCandidate}
use terra_translate.Replay.Resume.{
  Raw, raws, enter_all, candidate_of, candidate_cmp, main_rank, find_resume_candidates,
}
use terra_translate.Replay.Candidates.{value_held}

candidate_cmp-IsOrder : IsOrder ResumeCandidate candidate_cmp
unfolding candidate_cmp
candidate_cmp-IsOrder =
    then_with-IsOrder (λ c. c.matched_turns) (λ a b. compare b a) flipped-IsTotalOrder _
      (then_with-IsOrder (λ c. c.occurrence_count) compare compare-IsTotalOrder _
        (then_with-IsOrder (λ c. main_rank c.branch) compare compare-IsTotalOrder _
          (then_with-IsOrder (λ c. c.branch) text_cmp text_cmp-IsTotalOrder _
            (key-IsOrder (λ c. c.next_commit_id) text_cmp text_cmp-IsTotalOrder))))

candidate_cmp-eq :
    (a b : ResumeCandidate)
    → candidate_cmp a b ≡ Ordering.eq
    → text_cmp a.next_commit_id b.next_commit_id ≡ Ordering.eq
unfolding candidate_cmp
candidate_cmp-eq a b h = ground arith

-- The sort key decides between different commits.
IsTotalOrder-key :
    (f : CommitId → ResumeCandidate)
    → ((k : CommitId) → (f k).next_commit_id ≡ k)
    → IsTotalOrder CommitId (λ a b. candidate_cmp (f a) (f b))
IsTotalOrder-key f keyed = record {
  eq = λ a b h.
      let same = text_cmp-IsTotalOrder.eq _ _ (candidate_cmp-eq (f a) (f b) h) in
      sym (keyed a) ∙ (same ∙ keyed b);
  gt = λ a b h. candidate_cmp-IsOrder.gt (f a) (f b) h;
  lt = λ a b h. candidate_cmp-IsOrder.lt (f a) (f b) h;
  trans = λ a b c h k. candidate_cmp-IsOrder.trans (f a) (f b) (f c) h k;
}

abbrev blank : Raw
blank = record { branch = []; start = 0; matched = 0; next = []; selected = [] }

module _ (to_lowercase : ℕ → Text) (s : SessionStore) (paths : List ReplayPath) (o : TurnSignature)
    (os : List TurnSignature) (game_id : Option GameId) where
  abbrev found : OrdMap Raw
  found = enter_all (raws to_lowercase s o os paths) []

  abbrev listed : List Raw
  listed = map (λ e. e.1) found

  abbrev made : Raw → ResumeCandidate
  made = candidate_of game_id (length listed)

  abbrev or_blank : Option Raw → Raw
  or_blank none = blank
  or_blank (some v) = v

  -- The candidate with a next commit.
  abbrev keyed : CommitId → ResumeCandidate
  keyed k = record (made (or_blank (OrdMap.get k found))) { next_commit_id = k }

  keyed_next : (v : Raw) → OrdMap.get v.next found ≡ some v → keyed v.next ≡ made v
  keyed_next v e = rw e refl

  by_key :
      (l : List Raw)
      → ((v : Raw) → In v l → OrdMap.get v.next found ≡ some v)
      → map made l ≡ map keyed (map (λ v. v.next) l)
  by_key [] h = refl
  by_key (v ∷ l) h =
      let now = sym (keyed_next v (h v (inl refl))) in
      let later = by_key l (λ w k. h w (inr k)) in λ i. now i ∷ later i

  module _ (arrange : List Raw → List Raw) (rearranges : (l : List Raw) → Permᴰ (arrange l) l) where
    ranked :
        find_resume_candidates arrange to_lowercase s paths (o ∷ os) game_id
        ≡ map keyed (
            sort_by (λ a b. candidate_cmp (keyed a) (keyed b)) (map (λ v. v.next) (arrange listed)))
    unfolding find_resume_candidates
    ranked =
        ap (sort_by candidate_cmp) (
          by_key (arrange listed) (λ v h.
            (value_held arrange rearranges to_lowercase s paths o os game_id v
              (In-Permᴰ (rearranges listed) v h)).0))
        ∙ sort_by-map keyed candidate_cmp (map (λ v. v.next) (arrange listed))

  -- The ranking is the same whatever the order in which the `HashMap` is iterated over.
  pub find_resume_candidates_order :
      (arrange other : List Raw → List Raw)
      → ((l : List Raw) → Permᴰ (arrange l) l)
      → ((l : List Raw) → Permᴰ (other l) l)
      → find_resume_candidates arrange to_lowercase s paths (o ∷ os) game_id
        ≡ find_resume_candidates other to_lowercase s paths (o ∷ os) game_id
  find_resume_candidates_order arrange other p q =
      ranked arrange p
      ∙ (ap (map keyed) (
            sort_by-eq_of_Perm _ (IsTotalOrder-key keyed (λ k. refl)) _ _ (hlevel ℕ_discrete)
              (Perm.map (λ v. v.next) ∣ Permᴰ.trans (p listed) (Permᴰ.symm (q listed)) ∣₁))
          ∙ sym (ranked other q))
