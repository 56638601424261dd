-- ===== src/Prompt/Ending.antt =====
-- crates/terratranslate-core/src/prompt.rs: rendering ends, and a source without tags is rendered as
-- itself.
use terra_translate.Base.{
  ℕ, zero, suc, ◌<◌, Text, txt, trim, starts_with, split_at, [], ◌∷◌, ◌++◌, length, Bool, true,
  false, Option, none, some, Result, ok, err, out_of_fuel, ◌>>=◌, traverse, ◌≡◌, ◌≢◌, refl, arith,
  if◌then◌else◌, ◌||◌,
}
use terra_translate.Base.Split.{join}
use terra_translate.Prompt.Data.{
  unexpected_else, unclosed_macro, PromptText, PromptData, PromptTemplateError,
}
use terra_translate.Prompt.Macros.{PromptExternals, is_text, one_of}
use terra_translate.Prompt.Values.{evaluate_condition}
use terra_translate.Prompt.Sizes.{split_at-length, find_block_parts-size}
use terra_translate.Prompt.Render.{
  BlockParts, next_tag, find_block_parts, render_tokens, render_fragment, or_empty, split_block_tag,
  render_block, render_template, render,
}
use terra_translate.Prompt.Fuel.{
  Ends, bind-Ends, ok-Ends, err-Ends, if-Ends, find_block_parts-Ends, traverse-Ends, condition-Ends,
  fragment-Ends,
}

module _ (pext : PromptExternals) (values : PromptData) where
  -- A block, with the recursive call on its parts.
  block-Ends :
      (again : Option PromptText → Text → Result PromptTemplateError Text)
      (current : Option PromptText) (block name argument : Text) (parts : BlockParts)
      → ((c : Option PromptText) → Ends (again c parts.body))
      → ((c : Option PromptText) → Ends (again c (or_empty parts.alternate)))
      → Ends (render_block pext values again current block name argument parts)
  unfolding render_block
  block-Ends again current block name argument parts body alternate =
      if-Ends (is_text name (txt "each"))
        (if-Ends (one_of (txt "texts" ∷ txt "hooks" ∷ txt "text_hooks" ∷ []) argument)
          (each parts.alternate) (err-Ends _))
        (if-Ends (is_text name (txt "if") || is_text name (txt "unless"))
          (bind-Ends (evaluate_condition pext values current argument) _
            (condition-Ends pext values current argument) λ condition e. chosen _)
          (err-Ends _))
    where
      each :
          (o : Option Text)
          → Ends (elim o [
            | some a ↦ err unexpected_else
            | none ↦ (do
              rendered ← traverse (λ t. again (some t) parts.body) values.texts
              ok (join [] rendered))
          ])
      each none =
          bind-Ends (traverse (λ t. again (some t) parts.body) values.texts) _
            (traverse-Ends _ values.texts λ t. body (some t)) λ rendered e. ok-Ends _
      each (some a) = err-Ends _

      chosen :
          (b : Bool) → Ends (again current (if b then parts.body else or_empty parts.alternate))
      chosen true = body current
      chosen false = alternate current

  module _ (fuel : ℕ)
      (again : (c : Option PromptText) (s : Text)
        → length s < fuel
        → Ends (render_template pext values fuel c s))
      (current : Option PromptText) where
    -- From the text after a block's first tag on.
    opened-Ends :
        (start raw source : Text)
        → length source < fuel
        → Ends (do
          let (name, argument) = split_block_tag (trim raw)
          parts ← find_block_parts source name
          block ←
              render_block pext values
                (render_template pext values fuel)
                current
                (trim raw)
                name
                argument
                parts
          rest ← render_template pext values fuel current parts.rest
          ok (start ++ block ++ rest))
    opened-Ends start raw source f =
        let (name, argument) = split_block_tag (trim raw) in
        bind-Ends (find_block_parts source name) _ (find_block_parts-Ends source name) λ parts e.
          bind-Ends
            (render_block pext values (render_template pext values fuel) current (trim raw) name
              argument parts)
            _
            (block-Ends (render_template pext values fuel) current (trim raw) name argument parts
              (λ c. again c parts.body (omega (arith, find_block_parts-size source name parts e)))
              (λ c.
                again c (or_empty parts.alternate)
                  (omega (arith, find_block_parts-size source name parts e))))
            λ block g.
              bind-Ends (render_template pext values fuel current parts.rest) _
                (again current parts.rest
                  (omega (arith, find_block_parts-size source name parts e)))
                λ rest i. ok-Ends _

    -- From the first tag of a block on.
    tag-Ends :
        (start token : Text) (o : Option (Text × Text))
        → ((raw source : Text) → o ≡ some (raw, source) → length source < fuel)
        → Ends (elim o [
          | none ↦ err (unclosed_macro (trim (b'#' ∷ token)))
          | some (raw, source') ↦ (do
            let (name, argument) = split_block_tag (trim raw)
            parts ← find_block_parts source' name
            block ←
                render_block pext values
                  (render_template pext values fuel)
                  current
                  (trim raw)
                  name
                  argument
                  parts
            rest ← render_template pext values fuel current parts.rest
            ok (start ++ block ++ rest))
        ])
    tag-Ends start token none k = err-Ends _
    tag-Ends start token (some (raw, source)) k = opened-Ends start raw source (k raw source refl)

  source-Ends :
      (fuel : ℕ) (current : Option PromptText) (source : Text) (o : Option (Text × Text))
      → ((before token : Text) → o ≡ some (before, token) → length token < fuel)
      → ((c : Option PromptText) (s : Text)
          → length s < fuel
          → Ends (render_template pext values fuel c s))
      → Ends (elim o [
        | none ↦ render_fragment pext values current source
        | some (before, token) ↦ (do
          start ← render_fragment pext values current before
          elim (split_at (txt "}}") token) [
            | none ↦ err (unclosed_macro (trim (b'#' ∷ token)))
            | some (raw, source') ↦ (do
              let (name, argument) = split_block_tag (trim raw)
              parts ← find_block_parts source' name
              block ←
                  render_block pext values
                    (render_template pext values fuel)
                    current
                    (trim raw)
                    name
                    argument
                    parts
              rest ← render_template pext values fuel current parts.rest
              ok (start ++ block ++ rest))
          ])
      ])
  source-Ends fuel current source none k again = fragment-Ends pext values current source
  source-Ends fuel current source (some (before, token)) k again =
      bind-Ends (render_fragment pext values current before) _
        (fragment-Ends pext values current before)
        λ start e.
          tag-Ends fuel again current start token (split_at (txt "}}") token)
            λ raw s g. omega (arith, k before token refl, split_at-length (txt "}}") token raw s g)

  template-Ends :
      (fuel : ℕ) (current : Option PromptText) (source : Text)
      → length source < fuel
      → Ends (render_template pext values fuel current source)
  unfolding render_template
  template-Ends zero current source f = absurd (omega arith)
  template-Ends (suc fuel) current source f =
      source-Ends fuel current source (split_at (txt "{{#") source)
        (λ before token e. omega (arith, split_at-length (txt "{{#") source before token e))
        (λ c s g. template-Ends fuel c s g)

  -- Rendering a template ends, with a text or an error.
  pub render-Ends : (source : Text) → render pext values source ≢ out_of_fuel
  unfolding render
  render-Ends source = template-Ends (suc (length source)) none source (omega arith)

starts_with_less : (s : Text) → starts_with (txt "{{#") s ≡ true → starts_with (txt "{{") s ≡ true
unfolding starts_with
starts_with_less [] h = cc h
starts_with_less (c ∷ []) h = ground arith
starts_with_less (c ∷ d ∷ s) h = ground arith

no_block : (s : Text) → split_at (txt "{{") s ≡ none → split_at (txt "{{#") s ≡ none
unfolding split_at
no_block [] h = refl
no_block (c ∷ s) h = ground (arith, no_block s, starts_with_less (c ∷ s))

-- A source without `{{` is rendered as itself.
pub render_plain :
    (pext : PromptExternals) (values : PromptData) (source : Text)
    → split_at (txt "{{") source ≡ none
    → render pext values source ≡ ok source
unfolding render render_template render_fragment render_tokens next_tag
render_plain pext values source h = ground (arith, h, no_block source h)
