-- ===== src/Prompt/Fuel.antt =====
-- crates/terratranslate-core/src/prompt.rs: the loops over the tags of a source end. Their fuel is
-- enough, since each tag that is read leaves a shorter text.
use terra_translate.Base.{
  ℕ, zero, suc, ◌<◌, Text, List, [], ◌∷◌, ◌++◌, length, drop, Bool, true, false, Option, none, some,
  Result, ok, err, out_of_fuel, ◌>>=◌, ok_or, traverse, ◌≡◌, ◌≢◌, refl, arith, if◌then◌else◌, ◌∙◌,
  ap,
}
use terra_translate.Prompt.Data.{PromptText, PromptData, PromptTemplateError}
use terra_translate.Prompt.Macros.{PromptExternals, drop_last, parse_default_argument}
use terra_translate.Prompt.Values.{
  macro_value, with_default, apply_filter, split_filter, render_macro, evaluate_condition,
}
use terra_translate.Prompt.Sizes.{next_tag-length}
use terra_translate.Prompt.Render.{
  Tag, unclosed, token_of, next_tag, Scanned, TagKind, classify, PartsStep, found, scans,
  parts_step, find_parts, find_block_parts, render_token, render_tokens, render_fragment,
}

abbrev pub Ends : {A : Type 0} → Result PromptTemplateError A → Type 0
Ends r = r ≢ out_of_fuel

pub bind-Ends :
    {A B : Type 0} (m : Result PromptTemplateError A) (f : A → Result PromptTemplateError B)
    → Ends m
    → ((a : A) → m ≡ ok a → Ends (f a))
    → Ends (m >>= f)
bind-Ends (ok a) f p q = q a refl
bind-Ends (err e) f p q = λ x. cc x
bind-Ends out_of_fuel f p q = absurd (p refl)

pub ok-Ends : {A : Type 0} (a : A) → Ends (ok a)
ok-Ends a x = cc x

pub err-Ends : {A : Type 0} (e : PromptTemplateError) → Ends {A = A} (err e)
err-Ends e x = cc x

pub if-Ends :
    {A : Type 0} (b : Bool) {x y : Result PromptTemplateError A}
    → Ends x
    → Ends y
    → Ends (if b then x else y)
if-Ends true p q = p
if-Ends false p q = q

next_tag-Ends : (source : Text) → Ends (next_tag source)
unfolding next_tag
next_tag-Ends source h = ground arith

parts_step-Ends :
    (expected : Text) (stack : List Text) (sc : Scanned) (tag : Tag) (kind : TagKind)
    → Ends (parts_step expected stack sc tag kind)
unfolding parts_step
parts_step-Ends expected stack sc tag (TagKind.opens name) h = cc h
parts_step-Ends expected [] sc tag (TagKind.closes name) h = ground arith
parts_step-Ends expected (top ∷ below) sc tag (TagKind.closes name) h = ground arith
parts_step-Ends expected [] sc tag TagKind.else_tag h = ground arith
parts_step-Ends expected (top ∷ below) sc tag TagKind.else_tag h = cc h
parts_step-Ends expected [] sc tag TagKind.other_tag h = cc h
parts_step-Ends expected (top ∷ below) sc tag TagKind.other_tag h = cc h

-- The two matches of the loop, with the recursive calls.
stepped-Ends :
    (fuel : ℕ) (expected : Text) (tag : Tag)
    → ((stack : List Text) (sc : Scanned) → Ends (find_parts fuel expected stack sc tag.after))
    → (s : PartsStep)
    → Ends (elim s [
      | found parts ↦ ok parts
      | scans stack sc ↦ find_parts fuel expected stack sc tag.after
    ])
stepped-Ends fuel expected tag k (found parts) = ok-Ends parts
stepped-Ends fuel expected tag k (scans stack sc) = k stack sc

next-Ends :
    (fuel : ℕ) (expected : Text) (stack : List Text) (sc : Scanned) (next : Option Tag)
    → ((tag : Tag)
        → next ≡ some tag
        → (st : List Text) (sc' : Scanned) → Ends (find_parts fuel expected st sc' tag.after))
    → Ends (elim next [
      | none ↦ err (unclosed expected)
      | some tag ↦ (do
        step ← parts_step expected stack sc tag (classify (token_of tag))
        elim step [
          | found parts ↦ ok parts
          | scans st sc' ↦ find_parts fuel expected st sc' tag.after
        ])
    ])
next-Ends fuel expected stack sc none k = err-Ends (unclosed expected)
next-Ends fuel expected stack sc (some tag) k =
    bind-Ends (parts_step expected stack sc tag (classify (token_of tag))) _
      (parts_step-Ends expected stack sc tag (classify (token_of tag)))
      λ step e. stepped-Ends fuel expected tag (k tag refl) step

find_parts-Ends :
    (fuel : ℕ) (expected : Text) (stack : List Text) (sc : Scanned) (source : Text)
    → length source < fuel
    → Ends (find_parts fuel expected stack sc source)
unfolding find_parts
find_parts-Ends zero expected stack sc source f = absurd (omega arith)
find_parts-Ends (suc fuel) expected stack sc source f =
    bind-Ends (next_tag source) _ (next_tag-Ends source) λ next e.
      next-Ends fuel expected stack sc next λ tag g st sc'.
        find_parts-Ends fuel expected st sc' tag.after
          (omega (arith, next_tag-length source tag (e ∙ ap ok g)))

pub find_block_parts-Ends : (source expected : Text) → Ends (find_block_parts source expected)
unfolding find_block_parts
find_block_parts-Ends source expected =
    find_parts-Ends (suc (length source)) expected [] (record { body = []; alternate = none })
      source (omega arith)

pub traverse-Ends :
    {A B : Type 0} (f : A → Result PromptTemplateError B) (xs : List A)
    → ((a : A) → Ends (f a))
    → Ends (traverse f xs)
unfolding traverse
traverse-Ends f [] k = ok-Ends []
traverse-Ends f (x ∷ xs) k =
    bind-Ends (f x) _ (k x)
      λ y e. bind-Ends (traverse f xs) _ (traverse-Ends f xs k) λ ys g. ok-Ends (y ∷ ys)

module _ (pext : PromptExternals) (values : PromptData) where
  parse-Ends : (raw : Text) → Ends (parse_default_argument pext raw)
  unfolding parse_default_argument
  parse-Ends raw h = ground arith

  default-Ends :
      (current : Option PromptText) (value argument : Text)
      → Ends (with_default pext values current value argument)
  default-Ends current value argument =
      bind-Ends (parse_default_argument pext argument) _ (parse-Ends argument)
        λ fallback e. ok-Ends _

  filter-Ends :
      (current : Option PromptText) (name value : Text) (filter : Option Text)
      → Ends (apply_filter pext values current name value filter)
  unfolding apply_filter
  filter-Ends current name value none h = ok-Ends value h
  filter-Ends current name value (some filter) h = ground (
    arith,
    default-Ends current value (drop_last (drop 8 filter)),
    default-Ends current value (drop 8 filter),
  )

  ok_or-Ends : {A : Type 0} (o : Option A) (e : PromptTemplateError) → Ends (ok_or o e)
  ok_or-Ends none e = err-Ends e
  ok_or-Ends (some a) e = ok-Ends a

  macro-Ends :
      (current : Option PromptText) (token : Text) → Ends (render_macro pext values current token)
  unfolding render_macro
  macro-Ends current token =
      bind-Ends
        (ok_or (macro_value pext values current (split_filter pext values current token).0) _) _
        (ok_or-Ends _ _) λ value e. filter-Ends current _ _ _

  pub condition-Ends :
      (current : Option PromptText) (raw : Text) → Ends (evaluate_condition pext values current raw)
  unfolding evaluate_condition
  condition-Ends current raw h = ground arith

  token-Ends :
      (current : Option PromptText) (token : Text) → Ends (render_token pext values current token)
  unfolding render_token
  token-Ends current token h = ground (arith, macro-Ends current token)

  found-Ends :
      (fuel : ℕ) (current : Option PromptText) (source : Text) (next : Option Tag)
      → ((tag : Tag) → next ≡ some tag → Ends (render_tokens pext values fuel current tag.after))
      → Ends (elim next [
        | none ↦ ok source
        | some tag ↦ (do
          value ← render_token pext values current (token_of tag)
          rest ← render_tokens pext values fuel current tag.after
          ok (tag.before ++ value ++ rest))
      ])
  found-Ends fuel current source none k = ok-Ends source
  found-Ends fuel current source (some tag) k =
      bind-Ends (render_token pext values current (token_of tag)) _
        (token-Ends current (token_of tag))
        λ value e.
          bind-Ends (render_tokens pext values fuel current tag.after) _ (k tag refl)
            λ rest g. ok-Ends _

  tokens-Ends :
      (fuel : ℕ) (current : Option PromptText) (source : Text)
      → length source < fuel
      → Ends (render_tokens pext values fuel current source)
  unfolding render_tokens
  tokens-Ends zero current source f = absurd (omega arith)
  tokens-Ends (suc fuel) current source f =
      bind-Ends (next_tag source) _ (next_tag-Ends source) λ next e.
        found-Ends fuel current source next λ tag g.
          tokens-Ends fuel current tag.after
            (omega (arith, next_tag-length source tag (e ∙ ap ok g)))

  pub fragment-Ends :
      (current : Option PromptText) (source : Text)
      → Ends (render_fragment pext values current source)
  unfolding render_fragment
  fragment-Ends current source = tokens-Ends (suc (length source)) current source (omega arith)
