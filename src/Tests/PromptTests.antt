-- ===== src/Tests/PromptTests.antt =====
-- Templates (crates/terratranslate-core/src/prompt.rs).
use terra_translate.Base.{
  ℕ, ℕ_discrete, Text, Text-discrete, txt, split_at, is_whitespace, [], ◌∷◌, true, none, some, ok,
  err, out_of_fuel, ◌≡◌, ◌≢◌, refl,
}
use terra_translate.Model.{empty_context}
use terra_translate.Prompt.{PromptText, PromptData, unknown_macro}
use terra_translate.Prompt.Render.{render}
use terra_translate.Prompt.Ending.{render-Ends, render_plain}
use terra_translate.Tests.EngineTests.{pext}

abbrev hook : ℕ → Text → PromptText
hook index text = record {
  index = index;
  hook_id = none;
  label = some (txt "menu");
  text = text;
  source = txt "manual";
  target = [];
  updated = true;
}

abbrev values : PromptData
values = record {
  game = none;
  source_language = none;
  target_language = txt "en";
  branch = txt "main";
  context = empty_context;
  texts = hook 1 (txt "yes") ∷ hook 12 (txt "no") ∷ [];
}

-- Opens what a rendering runs.
renders : Unit {0}
unfolding render Text-discrete ℕ_discrete is_whitespace
renders = tt

each_text :
    render pext values
      (txt "{{#each texts}}{{index}}={{ this.text }};{{/each}}{{#if !updated}}a{{else}}b{{/if}}")
    ≡ ok (txt "1=yes;12=no;a")
unfolding renders
each_text = refl

defaults :
    render pext values (txt "{{source_language|default('any')}} {{texts|enumerate}}")
    ≡ ok (txt "any [1] menu:\nyes\n\n[12] menu:\nno")
unfolding renders
defaults = refl

unknown : render pext values (txt "a{{b}}") ≡ err (unknown_macro (txt "b"))
unfolding renders
unknown = refl

render-Ends_example : render pext values (txt "{{#if a}}{{#if b}}{{/if}}{{text") ≢ out_of_fuel
render-Ends_example = render-Ends pext values (txt "{{#if a}}{{#if b}}{{/if}}{{text")

no_tag : split_at (txt "{{") (txt "a { b }") ≡ none
unfolding split_at
no_tag = refl

render_plain_example : render pext values (txt "a { b }") ≡ ok (txt "a { b }")
render_plain_example = render_plain pext values (txt "a { b }") no_tag
