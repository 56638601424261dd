-- ===== src/Prompt/Render.antt =====
-- crates/terratranslate-core/src/prompt.rs: the renderer. A cursor into the source is the text after
-- it, and each loop takes fuel, enough for the length of that text (Prompt/Fuel proves so).
use terra_translate.Base.{
  ℕ, zero, suc, Text, Text-discrete, txt, trim, starts_with, split_at, is_whitespace, List, [], ◌∷◌,
  ◌++◌, length, Bool, not, ◌||◌, Option, none, some, ite, Result, ok, err, out_of_fuel, ◌>>=◌,
  traverse, if◌then◌else◌,
}
use terra_translate.Base.Split.{join}
use terra_translate.Prompt.Data.{
  PromptText, PromptData, PromptTemplateError, unclosed_macro, unclosed_block, unexpected_block_end,
  unknown_block, unclosed_enumeration, unexpected_enumeration_end, unexpected_else, multiple_else,
}
use terra_translate.Prompt.Macros.{PromptExternals, is_text, one_of}
use terra_translate.Prompt.Values.{render_macro, evaluate_condition}

-- `split_block_tag`
unfoldable pub word_of : Text → Text × Text
unfolding is_whitespace
word_of [] = ([], [])
word_of (c ∷ s) =
    let rest : Text × Text = (c ∷ (word_of s).0, (word_of s).1) in
    if is_whitespace c then ([], s) else rest

unfoldable pub split_block_tag : Text → Text × Text
unfolding word_of trim
split_block_tag block = ((word_of block).0, trim (word_of block).1)

pub record BlockParts : Type 0 where
  pub body : Text
  pub alternate : Option Text
  -- the source from `end` on
  pub rest : Text

-- A tag that was found: the text before it, its trimmed token, and the text after it.
pub record Tag : Type 0 where
  pub before : Text
  pub raw : Text
  pub after : Text

abbrev pub token_of : Tag → Text
token_of t = trim t.raw

-- The two searches for `{{` and `}}`; `none` is a source without a tag.
unfoldable pub next_tag : Text → Result PromptTemplateError (Option Tag)
unfolding split_at trim
next_tag source = elim (split_at (txt "{{") source) [
  | none ↦ ok none
  | some (before, token) ↦ elim (split_at (txt "}}") token) [
    | none ↦ err (unclosed_macro (trim token))
    | some (raw, after) ↦ ok (some (record { before = before; raw = raw; after = after }))
  ]
]

-- A whole tag in the source.
abbrev pub tag_text : Tag → Text
tag_text t = txt "{{" ++ t.raw ++ txt "}}"

-- `&source[body_start..…]` and `&source[alternate..…]` up to the cursor.
pub record Scanned : Type 0 where
  pub body : Text
  pub alternate : Option Text

unfoldable pub scan : Text → Scanned → Scanned
scan text scanned = elim scanned.alternate [
  | none ↦ record { body = scanned.body ++ text; alternate = none }
  | some alternate ↦ record { body = scanned.body; alternate = some (alternate ++ text) }
]

-- `unwrap_or_default`
abbrev pub or_empty : Option Text → Text
or_empty none = []
or_empty (some t) = t

-- `token.strip_prefix`
unfoldable pub strip_prefix : ℕ → Text → Option Text
strip_prefix c [] = none
strip_prefix c (d ∷ s) = if is_text (c ∷ []) (d ∷ []) then some s else none

abbrev pub unclosed : Text → PromptTemplateError
unclosed expected =
    if is_text expected (txt "each") then unclosed_enumeration else unclosed_block expected

pub data TagKind : Type 0 where
  opens closes : Text → TagKind
  else_tag other_tag : TagKind

-- The tests of the loop on a token.
unfoldable pub classify : Text → TagKind
unfolding strip_prefix split_block_tag trim is_text
classify token = elim (strip_prefix b'#' token) [
  | some nested ↦ opens (split_block_tag (trim nested)).0
  | none ↦ elim (strip_prefix b'/' token) [
    | some close ↦ closes (trim close)
    | none ↦ if is_text token (txt "else") then else_tag else other_tag
  ]
]

pub data PartsStep : Type 0 where
  found : BlockParts → PartsStep
  scans : List Text → Scanned → PartsStep

abbrev pub second_else : Scanned → Tag → Result PromptTemplateError PartsStep
second_else scanned tag = elim scanned.alternate [
  | some alternate ↦ err multiple_else
  | none ↦ ok (scans [] (record { body = scanned.body ++ tag.before; alternate = some [] }))
]

-- One turn of the loop of `find_block_parts`. The stack has its top first, and lacks `expected`,
-- which is at its bottom.
unfoldable pub parts_step :
    (expected : Text) → List Text → Scanned → Tag → TagKind → Result PromptTemplateError PartsStep
unfolding scan
parts_step expected stack scanned tag (opens name) =
    ok (scans (name ∷ stack) (scan (tag.before ++ tag_text tag) scanned))
parts_step expected [] scanned tag (closes name) =
    ite (Text-discrete expected name)
      (ok (
        found (record {
          body = (scan tag.before scanned).body;
          alternate = (scan tag.before scanned).alternate;
          rest = tag.after;
        })))
      (err (unexpected_block_end name))
parts_step expected (top ∷ below) scanned tag (closes name) =
    ite (Text-discrete top name) (ok (scans below (scan (tag.before ++ tag_text tag) scanned)))
      (err (unexpected_block_end name))
parts_step expected [] scanned tag else_tag = second_else scanned tag
parts_step expected (top ∷ below) scanned tag else_tag =
    ok (scans (top ∷ below) (scan (tag.before ++ tag_text tag) scanned))
parts_step expected stack scanned tag other_tag =
    ok (scans stack (scan (tag.before ++ tag_text tag) scanned))

-- The loop of `find_block_parts`.
unfoldable pub find_parts :
    ℕ → Text → List Text → Scanned → Text → Result PromptTemplateError BlockParts
unfolding next_tag classify parts_step is_text
find_parts zero expected stack scanned source = out_of_fuel
find_parts (suc fuel) expected stack scanned source = do
  next ← next_tag source
  elim next [
    | none ↦ err (unclosed expected)
    | some tag ↦ (do
      step ← parts_step expected stack scanned tag (classify (token_of tag))
      elim step [
        | found parts ↦ ok parts
        | scans stack' scanned' ↦ find_parts fuel expected stack' scanned' tag.after
      ])
  ]

-- `find_block_parts`, from the body on
unfoldable pub find_block_parts : Text → Text → Result PromptTemplateError BlockParts
unfolding find_parts
find_block_parts source expected =
    find_parts (suc (length source)) expected [] (record { body = []; alternate = none }) source

module _ (pext : PromptExternals) (values : PromptData) where
  -- The guards of `render_fragment` on a token, and the macro.
  unfoldable pub render_token : Option PromptText → Text → Result PromptTemplateError Text
  unfolding starts_with is_text render_macro
  render_token current token =
      if starts_with (txt "#") token || is_text token (txt "/each")
      then (if is_text token (txt "/each")
          then err unexpected_enumeration_end
          else err (unknown_block token))
      else if starts_with (txt "/") token
      then err (unexpected_block_end token)
      else if is_text token (txt "else")
      then err unexpected_else
      else render_macro pext values current token

  -- The loop of `render_fragment`.
  unfoldable pub render_tokens : ℕ → Option PromptText → Text → Result PromptTemplateError Text
  unfolding next_tag render_token
  render_tokens zero current source = out_of_fuel
  render_tokens (suc fuel) current source = do
    next ← next_tag source
    elim next [
      | none ↦ ok source
      | some tag ↦ (do
        value ← render_token current (token_of tag)
        rest ← render_tokens fuel current tag.after
        ok (tag.before ++ value ++ rest))
    ]

  unfoldable pub render_fragment : Option PromptText → Text → Result PromptTemplateError Text
  unfolding render_tokens
  render_fragment current source = render_tokens (suc (length source)) current source

  -- The text that a block `if` or `unless` selects.
  abbrev pub selected : Text → Bool → BlockParts → Text
  selected name condition parts =
      if (if is_text name (txt "if") then condition else not condition)
      then parts.body
      else or_empty parts.alternate

  -- The `match block_name`; `render` is the recursive call.
  unfoldable pub render_block :
      (render : Option PromptText → Text → Result PromptTemplateError Text)
      → Option PromptText
      → (block name argument : Text) → BlockParts
      → Result PromptTemplateError Text
  unfolding is_text one_of evaluate_condition traverse join
  render_block render current block name argument parts =
      if is_text name (txt "each")
      then (if one_of (txt "texts" ∷ txt "hooks" ∷ txt "text_hooks" ∷ []) argument
          then elim parts.alternate [
            | some alternate ↦ err unexpected_else
            | none ↦ (do
              rendered ← traverse (λ t. render (some t) parts.body) values.texts
              ok (join [] rendered))
          ]
          else err (unknown_block block))
      else if is_text name (txt "if") || is_text name (txt "unless")
      then (do
        condition ← evaluate_condition pext values current argument
        render current (selected name condition parts))
      else err (unknown_block block)

  -- `render_template_fragment_for_text`. After `{{#` comes the `#` of the token.
  unfoldable pub render_template : ℕ → Option PromptText → Text → Result PromptTemplateError Text
  unfolding split_at render_fragment trim split_block_tag find_block_parts render_block
  render_template zero current source = out_of_fuel
  render_template (suc fuel) current source = elim (split_at (txt "{{#") source) [
    | none ↦ render_fragment current source
    | some (before, token) ↦ (do
      start ← render_fragment current before
      elim (split_at (txt "}}") token) [
        | none ↦ err (unclosed_macro (trim (b'#' ∷ token)))
        | some (raw, source') ↦ (do
          let (name, argument) = split_block_tag (trim raw)
          parts ← find_block_parts source' name
          block ← render_block (render_template fuel) current (trim raw) name argument parts
          rest ← render_template fuel current parts.rest
          ok (start ++ block ++ rest))
      ])
  ]

  -- `PromptTemplate::render`, and `render_prompt`
  unfoldable pub render : Text → Result PromptTemplateError Text
  unfolding render_template
  render source = render_template (suc (length source)) none source
