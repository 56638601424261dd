-- ===== src/Replay/Steps.antt =====
-- crates/terratranslate-engine/src/replay.rs: what one step of a replay cursor does.
use terra_translate.Base.{
  ℕ, suc, ◌+◌, ◌-◌, ◌≤◌, ◌<◌, Text, List, [], ◌∷◌, ◌++◌, length, get_elem?, drop, all, true, false,
  Option, none, some, ◌≡◌, ◌≢◌, inl, inr, refl, arith, Bool-cases, ap, ◌∙◌, append-nil,
  length-append, length-drop, get_elem?-drop, get_elem?-some, get_elem?-lt, ite_cases,
}
use terra_translate.Model.{TranslationCommit}
use terra_translate.Signature.{TurnSignature, TurnSignature-discrete}
use terra_translate.Store.Schema.{SessionStore}
use terra_translate.Store.Blobs.{is_structural_commit, commit_replay_signature}
use terra_translate.Replay.Cursor.{
  ReplayCursor, ReplayStep, matched, at_head, diverged, unavailable, skip_structural, step,
  compared, stepped,
}

-- The cursor stands on a commit of its path.
abbrev pub IsOnPath : ReplayCursor → Type 0
IsOnPath c = c.position < length c.path

-- From the commits `ks` that follow `position`, structural ones are skipped up to `position'`, and
-- `rest` is left: nothing, or a translatable commit first.
abbrev pub IsSkipped : ℕ → List TranslationCommit → ℕ → List TranslationCommit → Type 0
IsSkipped position ks position' rest =
    (skipped : List TranslationCommit) × (ks ≡ skipped ++ rest)
    × (all is_structural_commit skipped ≡ true)
    × (position' ≡ position + length skipped)
    × elim rest [ [] ↦ Unit {0} | k ∷ _ ↦ is_structural_commit k ≡ false ]

pub skip_structural-IsSkipped :
    (position : ℕ) (ks : List TranslationCommit)
    → IsSkipped position ks (skip_structural position ks).0 (skip_structural position ks).1
unfolding skip_structural
skip_structural-IsSkipped position [] = ([], refl, refl, omega arith, tt)
skip_structural-IsSkipped position (k ∷ ks) = elim (Bool-cases (is_structural_commit k)) [
  | inl e ↦
      let (skipped, parts, structural, moved, next) = skip_structural-IsSkipped (suc position) ks in
      rw e (k ∷ skipped, ap (◌∷◌ k) parts, rw e structural, omega (arith, moved), next)
  | inr e ↦ rw e ([], refl, refl, omega arith, e)
]

-- The next translatable commit: `k` at index `n`, with structural commits only before it.
pub record IsNext (c : ReplayCursor) (n : ℕ) (k : TranslationCommit) : Type 0 where
  pub found : get_elem? c.path n ≡ some k
  pub after : c.position < n
  pub translatable : is_structural_commit k ≡ false
  pub skipped : List TranslationCommit
  pub rest : List TranslationCommit
  pub following : drop (c.position + 1) c.path ≡ skipped ++ k ∷ rest
  pub structural : all is_structural_commit skipped ≡ true
  pub index : n ≡ c.position + 1 + length skipped

module _ (to_lowercase : ℕ → Text) (s : SessionStore) (observed : TurnSignature) where
  -- What a step comes to. The path, its branch and its game stay; the position moves to the match,
  -- or to the last of the structural commits before the next turn.
  pub data Outcome (c c' : ReplayCursor) (r : Option ReplayStep) : Type 0 where
    ends :
        all is_structural_commit (drop (c.position + 1) c.path) ≡ true
        → c' ≡ record c { position = length c.path - 1 }
        → r ≡ some at_head
        → Outcome c c' r
    matches :
        (n : ℕ) (k : TranslationCommit)
        → IsNext c n k
        → commit_replay_signature to_lowercase s k ≡ some observed
        → c' ≡ record c { position = n }
        → r ≡ some (matched k)
        → Outcome c c' r
    differs :
        (n : ℕ) (k current : TranslationCommit) (expected : TurnSignature)
        → IsNext c n k
        → commit_replay_signature to_lowercase s k ≡ some expected
        → expected ≢ observed
        → c' ≡ record c { position = n - 1 }
        → get_elem? c.path (n - 1) ≡ some current
        → r ≡ some (diverged current.id)
        → Outcome c c' r
    is_lost :
        (n : ℕ) (k : TranslationCommit)
        → IsNext c n k
        → commit_replay_signature to_lowercase s k ≡ none
        → c' ≡ record c { position = n - 1 }
        → r ≡ some unavailable
        → Outcome c c' r

  back_to :
      (c : ReplayCursor) (p : ℕ) → record c { position = p } ≡ record c { position = suc p - 1 }
  back_to c p = let e : p ≡ suc p - 1 = omega arith in ap (λ q. record c { position = q }) e

  compared-Outcome :
      (c : ReplayCursor) (p : ℕ) (k current : TranslationCommit) (o : Option TurnSignature)
      → IsNext c (suc p) k
      → commit_replay_signature to_lowercase s k ≡ o
      → get_elem? c.path p ≡ some current
      → Outcome c
          (compared to_lowercase c p k o observed).0
          (compared to_lowercase c p k o observed).1
  compared-Outcome c p k current none next e on = is_lost (suc p) k next e (back_to c p) refl
  compared-Outcome c p k current (some expected) next e on =
      ite_cases (λ (x : ReplayCursor × Option ReplayStep). Outcome c x.0 x.1)
        (TurnSignature-discrete expected observed)
        (λ same. matches (suc p) k next (e ∙ ap some same) refl refl)
        (λ other.
          differs (suc p) k current expected next e other (back_to c p)
            (let q : suc p - 1 ≡ p = omega arith in rw q on) (rw on))

  stepped-Outcome :
      (c : ReplayCursor) (p : ℕ) (rest : List TranslationCommit)
      → IsOnPath c
      → IsSkipped c.position (drop (c.position + 1) c.path) p rest
      → Outcome c
          (stepped to_lowercase s observed c (p, rest)).0
          (stepped to_lowercase s observed c (p, rest)).1
  stepped-Outcome c p [] on (skipped, parts, structural, moved, _) =
      let all_left : drop (c.position + 1) c.path ≡ skipped = parts ∙ append-nil skipped in
      let e : p ≡ length c.path - 1 =
        omega (arith, moved, ap length all_left, length-drop (c.position + 1) c.path) in
      ends (rw all_left structural) (ap (λ q. record c { position = q }) e) refl
  stepped-Outcome c p (k ∷ ks) on (skipped, parts, structural, moved, next) =
      let here : p < length c.path = omega (
        arith,
        moved,
        ap length parts,
        length-append skipped (k ∷ ks),
        length-drop (c.position + 1) c.path,
      ) in
      let (current, found) = get_elem?-some p c.path here in
      compared-Outcome c p k current _
        (record {
          found =
              get_elem?-drop (c.position + 1) c.path skipped ks k (suc p) parts
                (omega (arith, moved));
          after = omega (arith, moved);
          translatable = next;
          skipped = skipped;
          rest = ks;
          following = parts;
          structural = structural;
          index = omega (arith, moved);
        })
        refl found

  -- One step of a cursor on its path never panics, and has exactly one of four outcomes: the end of
  -- the path, a match of the next translatable commit, a divergence from it, or a turn whose
  -- signature cannot be read.
  pub step-Outcome :
      (c : ReplayCursor)
      → IsOnPath c
      → Outcome c (step to_lowercase s observed c).0 (step to_lowercase s observed c).1
  unfolding step
  step-Outcome c on =
      stepped-Outcome c _ _ on (skip_structural-IsSkipped c.position (drop (c.position + 1) c.path))

  -- A step leaves the cursor on its path, at a position that is not earlier.
  pub step-IsOnPath :
      (c : ReplayCursor)
      → IsOnPath c
      → IsOnPath (step to_lowercase s observed c).0
        × (c.position ≤ (step to_lowercase s observed c).0.position)
        × ((step to_lowercase s observed c).0.path ≡ c.path)
  step-IsOnPath c on = moves (step-Outcome c on)
    where
      moves :
          {c' : ReplayCursor} {r : Option ReplayStep}
          → Outcome c c' r
          → IsOnPath c' × (c.position ≤ c'.position) × (c'.path ≡ c.path)
      moves (ends h e q) = rw e (omega arith, omega arith, refl)
      moves (matches n k next h e q) =
          rw e (get_elem?-lt n c.path k next.found, omega (arith, next.after), refl)
      moves (differs n k current x next h d e f q) =
          rw e (get_elem?-lt (n - 1) c.path current f, omega (arith, next.after), refl)
      moves (is_lost n k next h e q) = rw e (
        omega (arith, get_elem?-lt n c.path k next.found, next.after),
        omega (arith, next.after),
        refl,
      )
