-- ===== src/Prompt/Values.antt =====
-- crates/terratranslate-core/src/prompt.rs: the value of a macro, its filter, and the conditions.
use terra_translate.Base.{
  Text, txt, trim, is_empty, starts_with, List, [], ◌∷◌, ◌++◌, length, drop, Bool, true, false, not,
  ◌&&◌, Option, none, some, Result, ok, err, ◌>>=◌, ok_or, if◌then◌else◌,
}
use terra_translate.Model.{GameIdentity}
use terra_translate.Prompt.Data.{
  PromptText, PromptData, PromptTemplateError, unknown_macro, unknown_filter, unknown_condition,
}
use terra_translate.Prompt.Macros.{
  PromptExternals, is_text, one_of, decimal, bool_text, split_once, ends_with, drop_last,
  parse_default_argument, join_texts, join_updated_texts, updated_text_count, has_updated_text,
  enumerate_texts,
}

-- `Option::map` and `and_then` on a field.
abbrev pub of_some {ℓ κ} : {A : Type ℓ} {B : Type κ} → Option A → (A → Option B) → Option B
of_some none f = none
of_some (some a) f = f a

abbrev pub game_text : GameIdentity → Text
game_text game =
    game.name
    ++ txt " ("
    ++ game.platform
    ++ txt ", "
    ++ game.runtime
    ++ txt ", "
    ++ game.executable_path
    ++ txt ")"

module _ (pext : PromptExternals) (values : PromptData) (current : Option PromptText) where
  -- The `match name`; `none` is an unknown macro.
  unfoldable pub macro_value : Text → Option (Option Text)
  unfolding one_of decimal join_texts join_updated_texts updated_text_count has_updated_text
      enumerate_texts
  macro_value name =
      let is = λ (names : List Text). one_of names name in
      if is (txt "game.id" ∷ txt "game_id" ∷ [])
      then some (of_some values.game λ g. some g.id)
      else if is (txt "game.name" ∷ txt "game_name" ∷ [])
      then some (of_some values.game λ g. some g.name)
      else if is (
          txt "game.executable"
          ∷ txt "game.executable_path"
          ∷ txt "game.path"
          ∷ txt "game_path"
          ∷ [])
      then some (of_some values.game λ g. some g.executable_path)
      else if is (txt "game.image_id" ∷ [])
      then some (of_some values.game λ g. g.image_id)
      else if is (txt "game.platform" ∷ txt "game_platform" ∷ [])
      then some (of_some values.game λ g. some g.platform)
      else if is (txt "game.runtime" ∷ txt "game_runtime" ∷ [])
      then some (of_some values.game λ g. some g.runtime)
      else if is (txt "game" ∷ [])
      then some (of_some values.game λ g. some (game_text g))
      else if is (txt "source_language" ∷ txt "source.language" ∷ txt "source_lang" ∷ [])
      then some values.source_language
      else if is (txt "target_language" ∷ txt "target.language" ∷ txt "target_lang" ∷ [])
      then some (some values.target_language)
      else if is (txt "branch" ∷ [])
      then some (some values.branch)
      else if is (txt "context.summary" ∷ [])
      then some (some values.context.summary)
      else if is (txt "context.style" ∷ [])
      then some (some values.context.style)
      else if is (txt "context.scratchpad" ∷ [])
      then some (some values.context.scratchpad)
      else if is (txt "context.glossary" ∷ [])
      then some (some (pext.glossary_json values.context.glossary))
      else if is (txt "context.entities" ∷ [])
      then some (some (pext.entities_json values.context.entities))
      else if is (txt "context" ∷ txt "context.json" ∷ [])
      then some (some (pext.context_json values.context))
      else if is (txt "text" ∷ [])
      then some (some (elim current [ some t ↦ t.text | none ↦ join_texts values ]))
      else if is (txt "texts" ∷ txt "hooks" ∷ [])
      then some (some (join_texts values))
      else if is (txt "updated_texts" ∷ txt "updated_hooks" ∷ [])
      then some (some (join_updated_texts values))
      else if is (
          txt "texts.enumerate"
          ∷ txt "texts.enumerated"
          ∷ txt "hooks.enumerate"
          ∷ txt "text_hooks"
          ∷ txt "text_hooks.enumerate"
          ∷ [])
      then some (some (enumerate_texts values false))
      else if is (
          txt "updated_texts.enumerate"
          ∷ txt "updated_texts.enumerated"
          ∷ txt "updated_hooks.enumerate"
          ∷ [])
      then some (some (enumerate_texts values true))
      else if is (txt "texts.count" ∷ txt "hooks.count" ∷ txt "hook_count" ∷ [])
      then some (some (decimal (length values.texts)))
      else if is
          (txt "updated_texts.count" ∷ txt "updated_hooks.count" ∷ txt "updated_hook_count" ∷ [])
      then some (some (decimal (updated_text_count values)))
      else if is (txt "updated" ∷ txt "text.updated" ∷ txt "this.updated" ∷ [])
      then some (
          some (elim current [
            | some t ↦ bool_text t.updated
            | none ↦ bool_text (has_updated_text values)
          ]))
      else if is
          (txt "index" ∷ txt "number" ∷ txt "@index" ∷ txt "text.index" ∷ txt "this.index" ∷ [])
      then some (of_some current λ t. some (decimal t.index))
      else if is (txt "label" ∷ txt "text.label" ∷ txt "this.label" ∷ [])
      then some (of_some current λ t. t.label)
      else if is (txt "hook_id" ∷ txt "text.hook_id" ∷ txt "this.hook_id" ∷ [])
      then some (of_some current λ t. t.hook_id)
      else if is (txt "source" ∷ txt "text.source" ∷ txt "this.source" ∷ [])
      then some (of_some current λ t. some t.source)
      else if is (txt "target" ∷ txt "text.target" ∷ txt "this.target" ∷ [])
      then some (of_some current λ t. some t.target)
      else if is (txt "this.text" ∷ [])
      then some (of_some current λ t. some t.text)
      else none

  abbrev pub with_default : Text → Text → Result PromptTemplateError Text
  with_default value argument = do
    fallback ← parse_default_argument pext argument
    ok (if is_empty (trim value) then fallback else value)

  -- The `match filter`.
  unfoldable pub apply_filter : Text → Text → Option Text → Result PromptTemplateError Text
  unfolding trim is_text one_of starts_with parse_default_argument enumerate_texts
  apply_filter name value none = ok value
  apply_filter name value (some filter) =
      if is_text filter (txt "trim")
      then ok (trim value)
      else if is_text filter (txt "upper")
      then ok (pext.to_uppercase value)
      else if is_text filter (txt "lower")
      then ok (pext.to_lowercase value)
      else if is_text filter (txt "json")
      then ok (pext.text_json value)
      else if is_text filter (txt "enumerate")
          && one_of (txt "texts" ∷ txt "hooks" ∷ txt "text_hooks" ∷ []) name
      then ok (enumerate_texts values false)
      else if is_text filter (txt "enumerate")
          && one_of (txt "updated_texts" ∷ txt "updated_hooks" ∷ []) name
      then ok (enumerate_texts values true)
      else if starts_with (txt "default(") filter && ends_with (txt ")") filter
      then with_default value (drop_last (drop 8 filter))
      else if starts_with (txt "default:") filter
      then with_default value (drop 8 filter)
      else err (unknown_filter filter)

  -- The name and the filter of a macro.
  abbrev pub split_filter : Text → Text × Option Text
  split_filter token = elim (split_once b'|' token) [
    | some (name, filter) ↦ (trim name, some (trim filter))
    | none ↦ elim (split_once b':' token) [
      | some (name, filter) ↦ (trim name, some (trim filter))
      | none ↦ (trim token, none)
    ]
  ]

  unfoldable pub render_macro : Text → Result PromptTemplateError Text
  unfolding split_once trim macro_value apply_filter
  render_macro token = do
    let (name, filter) = split_filter token
    value ← ok_or (macro_value name) (unknown_macro name)
    apply_filter name (elim value [ none ↦ [] | some v ↦ v ]) filter

  -- The `match condition`; `none` is an unknown condition.
  unfoldable pub condition_value : Text → Option Bool
  unfolding one_of has_updated_text
  condition_value c =
      if one_of (txt "true" ∷ []) c
      then some true
      else if one_of (txt "false" ∷ []) c
      then some false
      else if one_of (txt "texts" ∷ txt "hooks" ∷ txt "text_hooks" ∷ []) c
      then some (elim values.texts [ [] ↦ false | t ∷ ts ↦ true ])
      else if one_of (txt "updated_texts" ∷ txt "updated_hooks" ∷ txt "has_updated_hook" ∷ []) c
      then some (has_updated_text values)
      else if one_of (txt "updated" ∷ txt "text.updated" ∷ txt "this.updated" ∷ []) c
      then some (elim current [ none ↦ false | some t ↦ t.updated ])
      else none

  abbrev pub known_condition : Text → Result PromptTemplateError Bool
  known_condition c = ok_or (condition_value c) (unknown_condition c)

  unfoldable pub evaluate_condition : Text → Result PromptTemplateError Bool
  unfolding trim condition_value starts_with
  evaluate_condition raw =
      let condition = trim raw in
      if starts_with (txt "!") condition
      then (do value ← known_condition (trim (drop 1 condition)); ok (not value))
      else known_condition condition
