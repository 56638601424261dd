-- ===== src/Prompt/Macros.antt =====
-- crates/terratranslate-core/src/prompt.rs: the values and filters of macros, and the conditions.
use terra_translate.Base.{
  ℕ, zero, suc, ◌+◌, ◌/◌, ◌%◌, Text, Text-discrete, txt, trim, is_empty, starts_with, List, [], ◌∷◌,
  ◌++◌, map, reverse, length, drop, any, Bool, true, false, ltb, ◌==◌, ◌&&◌, ◌||◌, Option, none,
  some, ite, Result, ok, err, ok_or, if◌then◌else◌,
}
use terra_translate.Base.OrdMap.{OrdMap}
use terra_translate.Base.Split.{join}
use terra_translate.Model.{ContextSnapshot, Entity}
use terra_translate.Prompt.Data.{
  PromptText, PromptData, PromptTemplateError, invalid_filter_argument,
}

-- What the code takes from serde_json, and the case tables of Unicode.
pub record PromptExternals : Type 0 where
  pub text_json : Text → Text
  pub glossary_json : OrdMap Text → Text
  pub entities_json : OrdMap Entity → Text
  pub context_json : ContextSnapshot → Text
  pub text_from_json : Text → Option Text
  pub to_uppercase : Text → Text
  pub to_lowercase : Text → Text

unfoldable pub is_text : Text → Text → Bool
is_text s t = ite (Text-discrete s t) true false

unfoldable pub one_of : List Text → Text → Bool
unfolding is_text
one_of names name = any (is_text name) names

-- The decimal digits of a number; it has at most as many as the fuel, the number itself.
unfoldable pub decimal_from : ℕ → ℕ → Text
decimal_from zero n = (b'0' + n) ∷ []
decimal_from (suc fuel) n =
    let high = decimal_from fuel (n / 10) in
    if ltb n 10 then (b'0' + n) ∷ [] else high ++ (b'0' + n % 10) ∷ []

unfoldable pub decimal : ℕ → Text
unfolding decimal_from
decimal n = decimal_from n n

abbrev pub bool_text : Bool → Text
bool_text true = txt "true"
bool_text false = txt "false"

-- `split_once`, which cuts at the first occurrence.
unfoldable pub split_once : ℕ → Text → Option (Text × Text)
split_once sep [] = none
split_once sep (c ∷ s) =
    let rest : Option (Text × Text) = elim (split_once sep s) [
      | none ↦ none
      | some (before, after) ↦ some (c ∷ before, after)
    ] in
    if c == sep then some ([], s) else rest

abbrev pub ends_with : Text → Text → Bool
ends_with suffix s = starts_with (reverse suffix) (reverse s)

-- `&s[..s.len() - 1]`
abbrev pub drop_last : Text → Text
drop_last s = reverse (drop 1 (reverse s))

-- `replace("\\'", "'")`
unfoldable pub unescape_quotes : Text → Text
unescape_quotes [] = []
unescape_quotes (c ∷ []) = c ∷ []
unescape_quotes (c ∷ d ∷ s) =
    let kept = c ∷ unescape_quotes (d ∷ s) in
    let replaced = d ∷ unescape_quotes s in if c == 92 && d == 39 then replaced else kept

module _ (pext : PromptExternals) where
  -- A text that is quoted at both ends has at least two characters, so `len() >= 2` is no test more.
  unfoldable pub parse_default_argument : Text → Result PromptTemplateError Text
  unfolding trim starts_with unescape_quotes
  parse_default_argument raw =
      let argument = trim raw in
      if ltb 1 (length argument)
        && ((starts_with (34 ∷ []) argument && ends_with (34 ∷ []) argument)
            || (starts_with (39 ∷ []) argument && ends_with (39 ∷ []) argument))
      then (if starts_with (34 ∷ []) argument
          then ok_or (pext.text_from_json argument) (invalid_filter_argument argument)
          else ok (unescape_quotes (drop_last (drop 1 argument))))
      else if is_empty argument
      then err (invalid_filter_argument argument)
      else ok argument

abbrev pub keep_updated : List PromptText → List PromptText
keep_updated [] = []
keep_updated (t ∷ ts) = let rest = keep_updated ts in if t.updated then t ∷ rest else rest

unfoldable pub join_texts : PromptData → Text
unfolding join
join_texts values = join (10 ∷ []) (map (λ t. t.text) values.texts)

unfoldable pub join_updated_texts : PromptData → Text
unfolding join
join_updated_texts values = join (10 ∷ []) (map (λ t. t.text) (keep_updated values.texts))

unfoldable pub updated_text_count : PromptData → ℕ
updated_text_count values = length (keep_updated values.texts)

unfoldable pub has_updated_text : PromptData → Bool
has_updated_text values = any (λ t. t.updated) values.texts

abbrev pub text_label : PromptText → Text
text_label t = elim t.label [
  | some label ↦ label
  | none ↦ elim t.hook_id [ some id ↦ id | none ↦ txt "text hook" ]
]

-- `format!("[{number}] {label}:\n{}", text.text)`
unfoldable pub enumerated : ℕ → PromptText → Text
unfolding decimal
enumerated number t =
    txt "[" ++ decimal number ++ txt "] " ++ text_label t ++ txt ":" ++ 10 ∷ [] ++ t.text

unfoldable pub enumerate_from : Bool → ℕ → List PromptText → List Text
unfolding enumerated
enumerate_from updated_only index [] = []
enumerate_from updated_only index (t ∷ ts) =
    enumerated (if updated_only then index + 1 else t.index) t
    ∷ enumerate_from updated_only (index + 1) ts

unfoldable pub enumerate_texts : PromptData → Bool → Text
unfolding enumerate_from join
enumerate_texts values updated_only = join (10 ∷ 10 ∷ []) (
    enumerate_from updated_only 0
      (if updated_only then keep_updated values.texts else values.texts))
