-- ===== src/Samples.antt =====
-- A small history for the tests: a root commit and a turn on it, and toy versions of what the code
-- takes from other crates. A content's encoding is one number, and a digest is its input.
use terra_translate.Base.{
  ℕ, ℕ_discrete, pos, Text, txt, [], ◌∷◌, Option, none, some, ite, ◌==◌, if◌then◌else◌, ◌≡◌, refl,
  arith,
}
use terra_translate.Model.{
  Bytes, CommitContent, TranslationCommit, Externals, IsCollisionFree, Modality, SourceKind,
  empty_context, no_model,
}
use terra_translate.Store.Integrity.{RoundTrips}

unfoldable pub CommitContent-discrete : Discrete CommitContent
CommitContent-discrete = hlevel ℕ_discrete

abbrev pub root : CommitContent
root = record {
  parents = [];
  created_at_ms = pos 0;
  source_events = [];
  source_text = [];
  translated_text = [];
  context = empty_context;
  scratchpad_edits = [];
  processor_trace = [];
  model = no_model;
  message = txt "root";
}

abbrev pub turn : CommitContent
turn = record root {
  parents = (1 ∷ []) ∷ [];
  source_text = txt "yes";
  translated_text = txt "oui";
  message = txt "turn";
}

-- 64 hexadecimal digits, so that the toy digest of the text names a blob.
abbrev pub digits : Text
digits = txt "00000000000000000000000000000000ffffffffffffffffffffffffffffffff"

-- The commit of a turn of the engine on top of `turn`.
abbrev pub reply : CommitContent
reply = record {
  parents = (2 ∷ []) ∷ [];
  created_at_ms = pos 3;
  source_events =
      record {
        id = 0;
        captured_at_ms = pos 2;
        modality = Modality.text;
        source = SourceKind.manual;
        target = txt "window";
        payload = record {
          digest = digits;
          media_type = txt "text/plain; charset=utf-8";
          byte_len = 64;
        };
        metadata = [];
      }
      ∷ [];
  source_text = digits;
  translated_text = txt "zero";
  context = record empty_context { summary = txt "digits" };
  scratchpad_edits = [];
  processor_trace = [];
  model = record no_model { provider = txt "toy" };
  message = txt "Translate multimodal turn";
}

unfoldable pub content_code : CommitContent → Option ℕ
content_code c = ite (CommitContent-discrete c root) (some 1) (
    ite (CommitContent-discrete c turn) (some 2)
      (ite (CommitContent-discrete c reply) (some 3) none))

unfoldable pub content_of : ℕ → Option CommitContent
content_of n =
    if n == 1 then some root else if n == 2 then some turn else if n == 3 then some reply else none

unfoldable pub toy_content_json : CommitContent → Option Bytes
unfolding content_code
toy_content_json c = elim (content_code c) [ none ↦ none | some n ↦ some (n ∷ []) ]

unfoldable pub toy_commit_json : TranslationCommit → Option Text
unfolding content_code
toy_commit_json k = elim (content_code k.content) [ none ↦ none | some n ↦ some (n ∷ k.id) ]

unfoldable pub toy_commit_from_json : Text → Option TranslationCommit
unfolding content_of
toy_commit_from_json [] = none
toy_commit_from_json (n ∷ id) = elim (content_of n) [
  | none ↦ none
  | some c ↦ some (record { id = id; content = c })
]

-- Opens the toys.
unfoldable pub toys : Unit {0}
unfolding toy_content_json toy_commit_json toy_commit_from_json CommitContent-discrete
toys = tt

abbrev pub toy : Externals
toy = record {
  hash_hex = λ b. b;
  content_json = toy_content_json;
  commit_json = toy_commit_json;
  commit_from_json = toy_commit_from_json;
  text_json = λ t. t;
  entity_json = λ e. e.display_name;
}

content_of_code : (c : CommitContent) (n : ℕ) → content_code c ≡ some n → content_of n ≡ some c
unfolding content_code content_of
content_of_code c n h = ground arith

pub toy-RoundTrips : RoundTrips toy
unfolding toy_commit_json toy_commit_from_json
toy-RoundTrips k t h =
    ground
      (arith, content_of_code k.content 1, content_of_code k.content 2, content_of_code k.content 3)

code_some :
    (c : CommitContent) (b : Bytes)
    → toy_content_json c ≡ some b
    → (n : ℕ) × (content_code c ≡ some n) × (b ≡ n ∷ [])
unfolding toy_content_json
code_some c b h = go (content_code c) refl h
  where
    go :
        (o : Option ℕ)
        → content_code c ≡ o
        → elim o [ none ↦ none | some n ↦ some (n ∷ []) ] ≡ some b
        → (n : ℕ) × (content_code c ≡ some n) × (b ≡ n ∷ [])
    go none e h = cc
    go (some n) e h = (n, e, cc)

same_code :
    (c d : CommitContent) (b : Bytes)
    → toy_content_json c ≡ some b
    → toy_content_json d ≡ some b
    → c ≡ d
same_code c d b p q =
    let (n, e, x) = code_some c b p in
    let (m, f, y) = code_some d b q in cc (content_of_code c n e, content_of_code d m f)

pub toy-IsCollisionFree : IsCollisionFree toy
unfolding toy_content_json
toy-IsCollisionFree = record {
  hash_injective = λ a b e. e;
  json_injective = λ c d b p q. same_code c d b p q;
}

abbrev pub root_commit : TranslationCommit
root_commit = record { id = 1 ∷ []; content = root }

abbrev pub turn_commit : TranslationCommit
turn_commit = record { id = 2 ∷ []; content = turn }

abbrev pub reply_commit : TranslationCommit
reply_commit = record { id = 3 ∷ []; content = reply }
