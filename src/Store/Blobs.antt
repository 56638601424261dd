-- ===== src/Store/Blobs.antt =====
-- crates/terratranslate-store/src/lib.rs: the content-addressed blobs, and the signature of a stored
-- turn that is rebuilt from them. Writing the temporary file and renaming it is one step.
use terra_translate.Base.{
  starts_with, ℕ, Text, Text-discrete, txt, trim, is_empty, List, [], ◌∷◌, length, all, Bool, true,
  false, ltb, leb, ◌==◌, ◌&&◌, ◌||◌, not, Option, none, some, ite, Result, ok, err, out_of_fuel,
  ok_or, if◌then◌else◌,
}
use terra_translate.Base.OrdMap
use terra_translate.Base.Utf8.{from_utf8}
use terra_translate.Model.{
  Bytes, TranslationCommit, SourceEvent, Modality, Modality-discrete, Externals,
}
use terra_translate.Signature.{TurnSignature, from_pairs}
use terra_translate.Store.Schema.{StoreError, invalid_digest, io_not_found, SessionStore}
use terra_translate.Store.Exec.{Exec, pure, query, modify, ◌>>=◌, ◌>>◌}

-- `u8::is_ascii_hexdigit`
unfoldable pub is_ascii_hexdigit : ℕ → Bool
is_ascii_hexdigit c =
    (leb b'0' c && leb c b'9') || (leb b'a' c && leb c b'f') || (leb b'A' c && leb c b'F')

-- `SessionStore::blob_path`; the path is `blob_root`, the first two digits and the others.
unfoldable pub blob_path : Text → Result StoreError Text
unfolding is_ascii_hexdigit
blob_path digest =
    if not (length digest == 64) || not (all is_ascii_hexdigit digest)
    then err invalid_digest
    else ok digest

unfoldable pub find_blob : Text → List (Text × Bytes) → Option Bytes
find_blob path [] = none
find_blob path ((p, bytes) ∷ files) = ite (Text-discrete p path) (some bytes) (find_blob path files)

-- `if !path.exists() { … }`
unfoldable pub write_blob : Text → Bytes → List (Text × Bytes) → List (Text × Bytes)
unfolding find_blob
write_blob path bytes files = elim (find_blob path files) [
  | none ↦ (path, bytes) ∷ files
  | some old ↦ files
]

module _ (ext : Externals) where
  -- `SessionStore::put_blob`
  unfoldable pub put_blob : Bytes → Exec Text
  unfolding blob_path write_blob
  put_blob bytes = do
    path ← query (λ s. blob_path (ext.hash_hex bytes))
    modify λ s. record s { blobs = write_blob path bytes s.blobs }
    pure (ext.hash_hex bytes)

-- `SessionStore::get_blob`
unfoldable pub get_blob : SessionStore → Text → Result StoreError Bytes
unfolding blob_path find_blob
get_blob s digest = elim (blob_path digest) [
  | ok path ↦ ok_or (find_blob path s.blobs) io_not_found
  | err e ↦ err e
  | out_of_fuel ↦ out_of_fuel
]

-- `is_structural_commit` of the engine, which the store writes out: `commit.parents.len() > 1`, no
-- source events, or a blank text.
unfoldable pub is_structural_commit : TranslationCommit → Bool
unfolding trim
is_structural_commit commit =
    ltb 1 (length commit.parents)
    || elim commit.source_events [ [] ↦ true | e ∷ es ↦ false ]
    || is_empty (trim commit.source_text)

abbrev pub decoded : Result StoreError Bytes → Option Text
decoded (ok bytes) = from_utf8 bytes
decoded (err e) = none
decoded out_of_fuel = none

-- The body of the loop over the source events; `none` is `return Ok(None)`.
unfoldable pub event_pair : SessionStore → SourceEvent → Option (Text × Text)
unfolding starts_with get_blob from_utf8
event_pair s event =
    let pair : Option (Text × Text) = elim (OrdMap.get (txt "stable_hook_key") event.metadata) [
      | none ↦ none
      | some hook ↦ elim (decoded (get_blob s event.payload.digest)) [
        | none ↦ none
        | some text ↦ some (hook, text)
      ]
    ] in
    ite (Modality-discrete event.modality Modality.text)
      (if starts_with (txt "text/") event.payload.media_type then pair else none) none

unfoldable pub event_pairs : SessionStore → List SourceEvent → Option (List (Text × Text))
unfolding event_pair
event_pairs s [] = some []
event_pairs s (event ∷ events) =
    let rest = event_pairs s events in
    elim (event_pair s event) [
      | none ↦ none
      | some pair ↦ elim rest [ none ↦ none | some pairs ↦ some (pair ∷ pairs) ]
    ]

module _ (to_lowercase : ℕ → Text) (s : SessionStore) where
  -- `SessionStore::commit_replay_signature`, and `replay_signature`. It never fails.
  unfoldable pub commit_replay_signature : TranslationCommit → Option TurnSignature
  unfolding is_structural_commit event_pairs from_pairs
  commit_replay_signature commit =
      let signature : Option TurnSignature = elim (event_pairs s commit.source_events) [
        | none ↦ none
        | some pairs ↦ some (from_pairs to_lowercase pairs)
      ] in
      if is_structural_commit commit then none else signature
