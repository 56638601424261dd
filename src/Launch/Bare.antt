-- ===== src/Launch/Bare.antt =====
-- crates/terratranslate-platform-linux/src/native_launch.rs: the working directory of an executable
-- that is given by its name alone.
use terra_translate.Base.{
  [], ◌∷◌, ◌++◌, false, Bool-cases, subst, ◌==◌, none, some, err, inl, inr, ℕ, ◌≡◌, ◌≢◌, refl, sym,
  ap, ◌∙◌, All, append_assoc, append-nil,
}
use terra_translate.Model.{Bytes}
use terra_translate.Launch.Arguments.{invalid_working_directory}
use terra_translate.Launch.Plan.{
  NativeLaunchRequest, System, parts_from, parent, or_parent, or_dot, is_dir,
  native_hook_availability, available, plan_launch, prepare_native_launch,
}
use terra_translate.Launch.Checks.{IsAccepted, validate_executable_iff}

-- A name has no separator.
abbrev pub IsName : Bytes → Type 0
IsName = All (λ c. (c == b'/') ≡ false)

parts_one : (part name : Bytes) → IsName name → parts_from part name ≡ (part ++ name) ∷ []
unfolding parts_from
parts_one part [] n = ap (λ p. p ∷ []) (sym (append-nil part))
parts_one part (c ∷ name) n =
    rw n.0
      (parts_one (part ++ c ∷ []) name n.1 ∙ ap (λ p. p ∷ []) (append_assoc part (c ∷ []) name))

-- The parent of a name is the empty path.
parent_name : (c : ℕ) (name : Bytes) → IsName (c ∷ name) → parent (c ∷ name) ≡ some []
unfolding parent
parent_name c [] n = elim (Bool-cases (c == b'.')) [
  | inl dot ↦ rw (n.0, dot) refl
  | inr other ↦ rw (n.0, other) refl
]
parent_name c (d ∷ name) n =
    let rest = parts_one (c ∷ d ∷ []) name n.1.1 in
    elim (Bool-cases (c == b'.')) [
      | inl dot ↦ rw (n.0, dot, n.1.0, rest) refl
      | inr other ↦ rw (n.0, other, n.1.0, rest) refl
    ]

plan_launch_name :
    (system : System) (request : NativeLaunchRequest) (c : ℕ) (name : Bytes)
    → request.executable ≡ c ∷ name
    → request.working_directory ≡ none
    → IsName (c ∷ name)
    → is_dir (system.metadata []) ≡ false
    → plan_launch system request ≡ some (err (invalid_working_directory []))
unfolding plan_launch
plan_launch_name system request c name x w n d =
    let empty : or_parent none (c ∷ name) ≡ [] = ap or_dot (parent_name c name n) in
    rw (x, w, empty, d) refl

-- An executable that is accepted and that is given by its name alone, without a working directory, is
-- refused, for the empty path as the working directory, if the empty path is no directory.
pub prepare_native_launch_name :
    (system : System) (request : NativeLaunchRequest)
    → native_hook_availability system ≡ available
    → IsAccepted system request.executable
    → request.working_directory ≡ none
    → request.executable ≢ []
    → IsName request.executable
    → is_dir (system.metadata []) ≡ false
    → prepare_native_launch system request ≡ some (err (invalid_working_directory []))
unfolding prepare_native_launch
prepare_native_launch_name system request a x w nonempty n d =
    rw (a, (validate_executable_iff system request.executable).1 x) (go request.executable refl)
  where
    go :
        (name : Bytes)
        → request.executable ≡ name
        → plan_launch system request ≡ some (err (invalid_working_directory []))
    go [] e = absurd (nonempty e)
    go (c ∷ name) e = plan_launch_name system request c name e w (subst IsName e n) d
