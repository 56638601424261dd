-- ===== src/Provider/Validation.antt =====
-- crates/terratranslate-provider/src/lib.rs: what `validate_request` accepts, and its errors.
use terra_translate.Base.{
  List, [], ◌∷◌, Bool, true, ok, ◌≡◌, ◌↔◌, arith, All, >>=-eq-ok, refl, ensure,
}
use terra_translate.Provider.{
  ModelCapabilities, ModelInput, TranslationRequest, ProviderError, tools_unsupported, check_input,
  check_inputs, validate_request,
}

-- The capability that an input needs.
abbrev pub Supports : ModelCapabilities → ModelInput → Type 0
Supports c (ModelInput.text t) = c.text ≡ true
Supports c (ModelInput.image m b) = c.vision ≡ true
Supports c (ModelInput.audio f b) = c.audio ≡ true

check_input-ok : (c : ModelCapabilities) (i : ModelInput) → check_input c i ≡ ok tt → Supports c i
check_input-ok c (ModelInput.text t) h = ground arith
check_input-ok c (ModelInput.image m b) h = ground arith
check_input-ok c (ModelInput.audio f b) h = ground arith

check_input_supported :
    (c : ModelCapabilities) (i : ModelInput) → Supports c i → check_input c i ≡ ok tt
check_input_supported c (ModelInput.text t) h = ground arith
check_input_supported c (ModelInput.image m b) h = ground arith
check_input_supported c (ModelInput.audio f b) h = ground arith

ensured : (b : Bool) → ensure {E = ProviderError} b tools_unsupported ≡ ok tt → b ≡ true
ensured b h = ground arith

check_inputs-ok :
    (c : ModelCapabilities) (is : List ModelInput) → check_inputs c is ≡ ok tt → All (Supports c) is
unfolding check_inputs
check_inputs-ok c [] h = tt
check_inputs-ok c (i ∷ is) h =
    let (u, checked, rest) = >>=-eq-ok (check_input c i) _ h in
    (check_input-ok c i checked, check_inputs-ok c is rest)

check_inputs_supported :
    (c : ModelCapabilities) (is : List ModelInput) → All (Supports c) is → check_inputs c is ≡ ok tt
unfolding check_inputs
check_inputs_supported c [] a = refl
check_inputs_supported c (i ∷ is) a =
    rw (check_input_supported c i a.0) (check_inputs_supported c is a.1)

-- A request is accepted exactly if the model supports the modality of every input, and tool calls.
pub validate_request_iff :
    (c : ModelCapabilities) (r : TranslationRequest)
    → (validate_request c r ≡ ok tt) ↔ (All (Supports c) r.inputs × (c.tools ≡ true))
unfolding validate_request
validate_request_iff c r = (
  λ h.
      let (u, checked, tools) = >>=-eq-ok (check_inputs c r.inputs) _ h in
      (check_inputs-ok c r.inputs checked, ensured c.tools tools),
  λ h. rw (check_inputs_supported c r.inputs h.0, h.1) refl,
)
