-- ===== src/Replay/Occurrences.antt =====
-- crates/terratranslate-engine/src/replay.rs: the occurrences in all paths, one for each next commit.
use terra_translate.Base.{
  ℕ, suc, Text, Text-discrete, List, [], ◌∷◌, map, length, Bool-cases, Option, Option-cases, none,
  some, ite, if◌then◌else◌, ◌≡◌, ◌≢◌, refl, sym, arith, inl, inr, In, subst, In-append,
  In-append_left, In-append_right,
}
use terra_translate.Base.OrdMap.{OrdMap, IsSorted, Above, get-insert, insert-IsSorted, get-Above}
use terra_translate.Base.OrdMap
use terra_translate.Model.{CommitId}
use terra_translate.Signature.{TurnSignature}
use terra_translate.Store.Schema.{SessionStore, ReplayPath}
use terra_translate.Replay.Resume.{Raw, entries_from, raws_from, raws, replaces, enter, enter_all}
use terra_translate.Replay.Located.{raws_from-IsOccurrence, raws_from_complete, raw_of}
use terra_translate.Replay.Reading.{IsOccurrence}

module _ (to_lowercase : ℕ → Text) (s : SessionStore) (o : TurnSignature)
    (os : List TurnSignature) where
  -- An occurrence in one of the paths.
  pub record IsFound (paths : List ReplayPath) (r : Raw) : Type 0 where
    pub path : ReplayPath
    pub among : In path paths
    pub occurs : IsOccurrence to_lowercase s o os path r

  pub raws-IsFound :
      (paths : List ReplayPath) (r : Raw) → In r (raws to_lowercase s o os paths) → IsFound paths r
  unfolding raws
  raws-IsFound [] r h = absurd h
  raws-IsFound (p ∷ ps) r h =
      elim (In-append r (raws_from p o os (entries_from to_lowercase s 0 p.commits)) _ h) [
        | inl here ↦ record {
          path = p;
          among = inl refl;
          occurs = raws_from-IsOccurrence to_lowercase s p o os 0 p.commits r refl here;
        }
        | inr later ↦
            let found = raws-IsFound ps r later in
            record { path = found.path; among = inr found.among; occurs = found.occurs }
      ]

  pub IsFound-raws :
      (paths : List ReplayPath) (path : ReplayPath) (r : Raw)
      → In path paths
      → IsOccurrence to_lowercase s o os path r
      → (f : Raw) × In f (raws to_lowercase s o os paths) × (f.next ≡ r.next)
  unfolding raws
  IsFound-raws [] path r h w = absurd h
  IsFound-raws (p ∷ ps) path r (inr h) w =
      let (f, at, same) = IsFound-raws ps path r h w in
      (f, In-append_right f (raws_from p o os (entries_from to_lowercase s 0 p.commits)) _ at, same)
  IsFound-raws (p ∷ ps) path r (inl e) w =
      let f = raw_of path (suc w.index) w.turn (suc (length os)) in
      let at =
        raws_from_complete to_lowercase s path o os (suc w.index) 0 (suc w.index) path.commits
          w.later w.turn w.follows (omega arith) (omega arith) w.first w.others in
      (
        f,
        In-append_left f _ _ (
            subst
              (λ (q : ReplayPath).
                In f (raws_from q o os (entries_from to_lowercase s 0 q.commits)))
              (sym e) at),
        w.next_is,
      )

-- The one of two candidates with the same next commit that stays.
abbrev winner : Raw → Option Raw → Raw
winner c none = c
winner c (some e) = if replaces c e then c else e

get-enter :
    (k : CommitId) (c : Raw) (m : OrdMap Raw)
    → OrdMap.get k (enter c m)
      ≡ ite (Text-discrete c.next k) (some (winner c (OrdMap.get c.next m))) (OrdMap.get k m)
unfolding enter
get-enter k c m = elim (Option-cases (OrdMap.get c.next m)) [
  | inl new ↦ rw (new, enter) (get-insert c.next k c m)
  | inr (e, old) ↦ elim (Bool-cases (replaces c e)) [
    | inl better ↦ rw (old, enter) (rw better (get-insert c.next k c m))
    | inr worse ↦ rw (old, enter) (rw worse (ground (arith, old)))
  ]
]

enter-IsSorted : (c : Raw) (m : OrdMap Raw) → IsSorted m → IsSorted (enter c m)
unfolding enter
enter-IsSorted c m h = ground (arith, insert-IsSorted c.next c m h)

-- What the table holds under a key has this key as its next commit, and is one of the occurrences.
pub record Holds (found : List Raw) (m : OrdMap Raw) : Type 0 where
  pub sorted : IsSorted m
  pub keyed : (k : CommitId) (v : Raw) → OrdMap.get k m ≡ some v → (v.next ≡ k) × In v found

won :
    (found : List Raw) (c : Raw) (k : CommitId) (v : Raw) (old : Option Raw)
    → In c found
    → c.next ≡ k
    → ((w : Raw) → old ≡ some w → (w.next ≡ c.next) × In w found)
    → some (winner c old) ≡ some v
    → (v.next ≡ k) × In v found
won found c k v none h same keyed e =
    let it : c ≡ v = ground arith in (ground arith, subst (λ x. In x found) it h)
won found c k v (some w) h same keyed e = elim (Bool-cases (replaces c w)) [
  | inl better ↦ let it : c ≡ v = ground arith in (ground arith, subst (λ x. In x found) it h)
  | inr worse ↦
      let it : w ≡ v = ground arith in
      let (next, at) = keyed w refl in (ground arith, subst (λ x. In x found) it at)
]

enter-Holds :
    (found : List Raw) (c : Raw) (m : OrdMap Raw)
    → In c found
    → Holds found m
    → Holds found (enter c m)
enter-Holds found c m h t = record {
  sorted = enter-IsSorted c m t.sorted;
  keyed = λ k v e. elim (Text-discrete c.next k) [
    | yes same ↦
        won found c k v (OrdMap.get c.next m) h same (λ w. t.keyed c.next w)
          (ground (arith, get-enter k c m))
    | no other ↦ t.keyed k v (ground (arith, get-enter k c m))
  ];
}

get-enter_some :
    (k : CommitId) (c : Raw) (m : OrdMap Raw)
    → OrdMap.get k m ≢ none
    → OrdMap.get k (enter c m) ≢ none
get-enter_some k c m h e = h (ground (arith, get-enter k c m))

get-enter_self : (c : Raw) (m : OrdMap Raw) → OrdMap.get c.next (enter c m) ≢ none
get-enter_self c m e = ground (arith, get-enter c.next c m)

pub enter_all-Holds :
    (found rest : List Raw) (m : OrdMap Raw)
    → ((r : Raw) → In r rest → In r found)
    → Holds found m
    → Holds found (enter_all rest m)
unfolding enter_all
enter_all-Holds found [] m h t = t
enter_all-Holds found (c ∷ rest) m h t =
    enter_all-Holds found rest (enter c m) (λ r i. h r (inr i))
      (enter-Holds found c m (h c (inl refl)) t)

get-enter_all :
    (k : CommitId) (rest : List Raw) (m : OrdMap Raw)
    → OrdMap.get k m ≢ none
    → OrdMap.get k (enter_all rest m) ≢ none
unfolding enter_all
get-enter_all k [] m h = h
get-enter_all k (c ∷ rest) m h = get-enter_all k rest (enter c m) (get-enter_some k c m h)

-- Every occurrence has its next commit in the table.
pub enter_all_complete :
    (r : Raw) (rest : List Raw) (m : OrdMap Raw)
    → In r rest
    → OrdMap.get r.next (enter_all rest m) ≢ none
unfolding enter_all
enter_all_complete r [] m h = absurd h
enter_all_complete r (c ∷ rest) m (inr h) = enter_all_complete r rest (enter c m) h
enter_all_complete r (c ∷ rest) m (inl e) =
    subst (λ (x : Raw). OrdMap.get x.next (enter_all rest (enter c m)) ≢ none) e
      (get-enter_all c.next rest (enter c m) (get-enter_self c m))

pub get_of_In-values :
    (v : Raw) (m : OrdMap Raw)
    → IsSorted m
    → In v (map (λ e. e.1) m)
    → (k : CommitId) × (OrdMap.get k m ≡ some v)
unfolding OrdMap.get
get_of_In-values v [] s h = absurd h
get_of_In-values v ((j, w) ∷ m) s (inl e) = (j, ground arith)
get_of_In-values v ((j, w) ∷ m) s (inr h) =
    let (k, at) = get_of_In-values v m s.1 h in
    elim (Text-discrete j k) [
      | yes same ↦ absurd (ground (arith, get-Above j m s.0))
      | no other ↦ (k, ground arith)
    ]

pub In-values :
    (k : CommitId) (v : Raw) (m : OrdMap Raw) → OrdMap.get k m ≡ some v → In v (map (λ e. e.1) m)
unfolding OrdMap.get
In-values k v [] e = ground arith
In-values k v ((j, w) ∷ m) e = elim (Text-discrete j k) [
  | yes same ↦ inl (ground arith)
  | no other ↦ inr (In-values k v m (ground arith))
]
