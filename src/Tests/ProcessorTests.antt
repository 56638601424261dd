-- ===== src/Tests/ProcessorTests.antt =====
-- A suppressor of repeats with room for two texts (crates/terratranslate-core/src/processor.rs).
use terra_translate.Base.{
  ℕ_discrete, Text, Text-discrete, txt, List, [], ◌∷◌, ok, ◌≡◌, ◌↔◌, refl, In,
}
use terra_translate.Model.{empty_context}
use terra_translate.Processor.{
  ProcessorRequest, RepeatSuppressor, new_suppressor, suppress, pre_prompt,
}
use terra_translate.Processor.Repeats.{feed, last_n, suppress_iff}

abbrev says : Text → ProcessorRequest
says text = record { stage = pre_prompt; text = text; context = empty_context }

abbrev requests : List ProcessorRequest
requests = says (txt "a") ∷ says (txt "a") ∷ says (txt "b") ∷ says (txt "c") ∷ []

abbrev fed : RepeatSuppressor × List Text
fed = feed (new_suppressor (txt "repeats") 2) requests

-- The second "a" is rejected, and the first one is forgotten by now.
fed_texts : (fed.1 ≡ txt "a" ∷ txt "b" ∷ txt "c" ∷ []) × (fed.0.recent ≡ txt "b" ∷ txt "c" ∷ [])
unfolding feed Text-discrete ℕ_discrete
fed_texts = (refl, refl)

suppress_iff_example :
    ((suppress fed.0 (says (txt "a"))).0 ≡ ok (record { text = txt "a"; diagnostics = [] }))
    ↔ (¬ In (txt "a") (last_n 2 fed.1))
suppress_iff_example = suppress_iff (txt "repeats") 2 requests (says (txt "a"))
