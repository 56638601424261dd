-- ===== src/Store/Lineage.antt =====
-- crates/terratranslate-store/src/lib.rs: the first-parent history of a stored commit.
use terra_translate.Base.{
  ℕ, zero, suc, ◌<◌, Text-discrete, List, [], ◌∷◌, ◌++◌, reverse, length, none, some, ok, ◌≡◌, ◌≢◌,
  refl, arith, sym, ap, ◌∙◌, subst, if_pos, if_neg, append_assoc, All,
}
use terra_translate.Model.{CommitId, TranslationCommit, Externals}
use terra_translate.Store.Schema.{CommitRow, SessionStore}
use terra_translate.Store.Read.{find_commit, get_commit}
use terra_translate.Store.Walk.{walk_fuel, walk_first_parents, first_parent_history_from_head}
use terra_translate.Store.Integrity.{IsStored, IsGrounded, IsIntact}

find_older :
    (row : CommitRow) (older : List CommitRow) (j : CommitId)
    → find_commit row.id older ≡ none
    → IsStored older j
    → find_commit j (row ∷ older) ≡ find_commit j older
unfolding find_commit
find_older row older j fresh h = elim (Text-discrete row.id j) [
  | yes e ↦ absurd (cc (subst (λ x. find_commit x older ≡ none) e fresh, h.1))
  | no n ↦ rw (if_neg _ n)
]

find_newest :
    (row : CommitRow) (older : List CommitRow) (id : CommitId)
    → row.id ≡ id
    → find_commit id (row ∷ older) ≡ some row
unfolding find_commit
find_newest row older id e = rw (if_pos _ e)

find_not_newest :
    (row : CommitRow) (older : List CommitRow) (id : CommitId)
    → row.id ≢ id
    → find_commit id (row ∷ older) ≡ find_commit id older
unfolding find_commit
find_not_newest row older id n = rw (if_neg _ n)

module _ (ext : Externals) (s : SessionStore) where
  -- What `get_commit` reads below a point of the table.
  pub record IsBelow (rows : List CommitRow) (id : CommitId) : Type 0 where
    pub row : CommitRow
    pub commit : TranslationCommit
    pub older : List CommitRow
    pub found : get_commit ext s id ≡ ok commit
    pub same_id : commit.id ≡ id
    pub parents_below : All (IsStored older) commit.parents
    pub grounded : IsGrounded ext older
    pub agrees : (j : CommitId) → IsStored older j → find_commit j s.commits ≡ find_commit j older
    pub shorter : length older < length rows

  reads :
      (id : CommitId) (row : CommitRow) (k : TranslationCommit)
      → find_commit id s.commits ≡ some row
      → ext.commit_from_json row.body_json ≡ some k
      → get_commit ext s id ≡ ok k
  unfolding get_commit
  reads id row k f d = ground arith

  agrees_older :
      (row : CommitRow) (older : List CommitRow)
      → find_commit row.id older ≡ none
      → ((j : CommitId)
          → IsStored (row ∷ older) j
          → find_commit j s.commits ≡ find_commit j (row ∷ older))
      → (j : CommitId) → IsStored older j
      → find_commit j s.commits ≡ find_commit j older
  agrees_older row older fresh a j i =
      let e = find_older row older j fresh i in a j (i.0, e ∙ i.1) ∙ e

  -- A stored commit reads back, and its parents are stored before it.
  pub stored-IsBelow :
      (rows : List CommitRow) (id : CommitId)
      → IsGrounded ext rows
      → ((j : CommitId) → IsStored rows j → find_commit j s.commits ≡ find_commit j rows)
      → IsStored rows id
      → IsBelow rows id
  stored-IsBelow [] id g a h = absurd (unfold find_commit in cc (h.1))
  stored-IsBelow (row ∷ older) id g a h = elim (Text-discrete row.id id) [
    | yes e ↦
        let (k, sound) = g.0 in
        let read : find_commit id s.commits ≡ some row =
          a id (row, find_newest row older id e) ∙ find_newest row older id e in
        record {
          row = row;
          commit = k;
          older = older;
          found = reads id row k read sound.decodes;
          same_id = sound.same_id ∙ e;
          parents_below = sound.parents_stored;
          grounded = g.1;
          agrees = λ j i. agrees_older row older sound.fresh a j i;
          shorter = omega arith;
        }
    | no n ↦
        let below =
          stored-IsBelow older id g.1 (λ j i. agrees_older row older g.0.1.fresh a j i)
            (h.0, sym (find_not_newest row older id n) ∙ h.1) in
        record {
          row = below.row;
          commit = below.commit;
          older = below.older;
          found = below.found;
          same_id = below.same_id;
          parents_below = below.parents_below;
          grounded = below.grounded;
          agrees = below.agrees;
          shorter = omega (arith, below.shorter);
        }
  ]

  -- A path of first parents, newest first: it starts at `id`, every commit is the first parent of the
  -- one before it, and the last one is a root.
  abbrev pub IsLineage : CommitId → List TranslationCommit → Type 0
  IsLineage id [] = ⊥
  IsLineage id (k ∷ ks) =
      (get_commit ext s id ≡ ok k)
      × (k.id ≡ id)
      × elim k.parents [ [] ↦ ks ≡ [] | p ∷ rest ↦ IsLineage p ks ]

  walk_at_root :
      (fuel : ℕ) (id : CommitId) (k : TranslationCommit) (found : List TranslationCommit)
      → get_commit ext s id ≡ ok k
      → k.parents ≡ []
      → walk_first_parents ext s (suc fuel) id found ≡ ok (found ++ k ∷ [])
  unfolding walk_first_parents
  walk_at_root fuel id k found e p = rw e (simp p)

  walk_to_parent :
      (fuel : ℕ) (id p : CommitId) (k : TranslationCommit) (ps : List CommitId)
      (found : List TranslationCommit)
      → get_commit ext s id ≡ ok k
      → k.parents ≡ p ∷ ps
      → walk_first_parents ext s (suc fuel) id found
        ≡ walk_first_parents ext s fuel p (found ++ k ∷ [])
  unfolding walk_first_parents
  walk_to_parent fuel id p k ps found e q = rw e (simp q)

  walk_first_parents-IsLineage :
      (fuel : ℕ) (rows : List CommitRow) (id : CommitId) (found : List TranslationCommit)
      → length rows < fuel
      → IsBelow rows id
      → (path : List TranslationCommit) × (walk_first_parents ext s fuel id found
          ≡ ok (found ++ path))
        × IsLineage id path
  walk_first_parents-IsLineage zero rows id found enough b = absurd (omega arith)
  walk_first_parents-IsLineage (suc fuel) rows id found enough b =
      go b.commit.parents refl b.parents_below (λ p i.
        walk_first_parents-IsLineage fuel b.older p (found ++ b.commit ∷ [])
          (omega (arith, b.shorter)) (stored-IsBelow b.older p b.grounded b.agrees i))
    where
      k : TranslationCommit
      k = b.commit

      go :
          (ps : List CommitId)
          → k.parents ≡ ps
          → All (IsStored b.older) ps
          → ((p : CommitId)
              → IsStored b.older p
              → (path : List TranslationCommit) × (walk_first_parents ext s fuel p (found ++ k ∷ [])
                  ≡ ok ((found ++ k ∷ []) ++ path))
                × IsLineage p path)
          → (path : List TranslationCommit) × (walk_first_parents ext s (suc fuel) id found
              ≡ ok (found ++ path))
            × IsLineage id path
      go [] e a rec =
          (k ∷ [], walk_at_root fuel id k found b.found e, (b.found, b.same_id, rw e refl))
      go (p ∷ ps) e a rec =
          let (path, walked, lineage) = rec p a.0 in
          (
            k ∷ path,
            walk_to_parent fuel id p k ps found b.found e
                ∙ walked
                ∙ ap ok (append_assoc found (k ∷ []) path),
            (b.found, b.same_id, rw e lineage),
          )

  -- In an intact database the first-parent history of a stored commit is found, without an error and
  -- within the fuel, and it is that commit's path of first parents down to a root, oldest first.
  pub first_parent_history-IsLineage :
      (head : CommitId)
      → IsIntact ext s
      → IsStored s.commits head
      → (path : List TranslationCommit) × (first_parent_history_from_head ext s head
          ≡ ok (reverse path))
        × IsLineage head path
  unfolding first_parent_history_from_head
  first_parent_history-IsLineage head v h =
      let (path, walked, lineage) =
        walk_first_parents-IsLineage (walk_fuel ext s) s.commits head [] (omega arith)
          (stored-IsBelow s.commits head v.grounded (λ j i. refl) h) in
      (path, rw walked, lineage)
