-- ===== src/Store/Content.antt =====
-- crates/terratranslate-store/src/lib.rs: the blob directory is addressed by content.
use terra_translate.Base.{
  Text, Text-discrete, List, [], ◌∷◌, none, some, ite, ok, ◌≡◌, refl, arith, sym, ◌∙◌, ap, subst,
  All, Option-cases, inl, inr, ok_or,
}
use terra_translate.Model.{Bytes, Externals}
use terra_translate.Store.Schema.{StoreError, io_not_found, SessionStore}
use terra_translate.Store.Exec.{query, modify, pure, after_ok}
use terra_translate.Store.Blobs.{blob_path, find_blob, write_blob, put_blob, get_blob}

write_new :
    (path : Text) (bytes : Bytes) (files : List (Text × Bytes))
    → find_blob path files ≡ none
    → write_blob path bytes files ≡ (path, bytes) ∷ files
unfolding write_blob
write_new path bytes files e = rw (e, write_blob)

write_old :
    (path : Text) (bytes old : Bytes) (files : List (Text × Bytes))
    → find_blob path files ≡ some old
    → write_blob path bytes files ≡ files
unfolding write_blob
write_old path bytes old files e = rw (e, write_blob)

find_written :
    (path : Text) (bytes : Bytes) (files : List (Text × Bytes))
    → find_blob path ((path, bytes) ∷ files) ≡ some bytes
unfolding find_blob
find_written path bytes files = ground arith

path_same : (digest path : Text) → blob_path digest ≡ ok path → path ≡ digest
unfolding blob_path
path_same digest path h = ground arith

module _ (ext : Externals) where
  -- Each file is named by the digest of its bytes.
  abbrev pub IsAddressed : SessionStore → Type 0
  IsAddressed s = All (λ (f : Text × Bytes). f.0 ≡ ext.hash_hex f.1) s.blobs

  found-IsAddressed :
      (files : List (Text × Bytes)) (path : Text) (bytes : Bytes)
      → All (λ (f : Text × Bytes). f.0 ≡ ext.hash_hex f.1) files
      → find_blob path files ≡ some bytes
      → path ≡ ext.hash_hex bytes
  unfolding find_blob
  found-IsAddressed [] path bytes a h = cc h
  found-IsAddressed ((p, b) ∷ files) path bytes a h = elim (Text-discrete p path) [
    | yes e ↦ cc (a.0, e, same_bytes p path b bytes files e h)
    | no n ↦ found-IsAddressed files path bytes a.1 (ground arith)
  ]
    where
      same_bytes :
          (p path : Text) (b bytes : Bytes) (files : List (Text × Bytes))
          → p ≡ path
          → ite (Text-discrete p path) (some b) (find_blob path files) ≡ some bytes
          → b ≡ bytes
      same_bytes p path b bytes files e h = ground arith

  write_blob-found :
      (files : List (Text × Bytes)) (bytes : Bytes)
      → ((a b : Bytes) → ext.hash_hex a ≡ ext.hash_hex b → a ≡ b)
      → All (λ (f : Text × Bytes). f.0 ≡ ext.hash_hex f.1) files
      → (find_blob (ext.hash_hex bytes) (write_blob (ext.hash_hex bytes) bytes files) ≡ some bytes)
        × All
            (λ (f : Text × Bytes). f.0 ≡ ext.hash_hex f.1)
            (write_blob (ext.hash_hex bytes) bytes files)
  write_blob-found files bytes injective a =
      elim (Option-cases (find_blob (ext.hash_hex bytes) files)) [
        | inl e ↦
            rw (write_new (ext.hash_hex bytes) bytes files e)
              (find_written (ext.hash_hex bytes) bytes files, (refl, a))
        | inr (old, e) ↦
            let same : bytes ≡ old =
              injective bytes old (found-IsAddressed files (ext.hash_hex bytes) old a e) in
            rw (write_old (ext.hash_hex bytes) bytes old files e) (e ∙ ap some (sym same), a)
      ]

  read_back :
      (s : SessionStore) (path digest : Text) (bytes : Bytes)
      → path ≡ digest
      → blob_path digest ≡ ok path
      → (find_blob digest (write_blob digest bytes s.blobs) ≡ some bytes)
        × All (λ (f : Text × Bytes). f.0 ≡ ext.hash_hex f.1) (write_blob digest bytes s.blobs)
      → (get_blob (record s { blobs = write_blob path bytes s.blobs }) digest ≡ ok bytes)
        × IsAddressed (record s { blobs = write_blob path bytes s.blobs })
  unfolding get_blob
  read_back s path digest bytes e valid written =
      rw (valid, e, get_blob) (ap (λ o. ok_or o io_not_found) written.0, written.1)

  -- Bytes that were put as a blob can be got under the digest that was returned, and every file is
  -- still named by its digest, if the digest has no collisions.
  pub get_blob-put_blob :
      ((a b : Bytes) → ext.hash_hex a ≡ ext.hash_hex b → a ≡ b)
      → (bytes : Bytes) (digest : Text) (s : SessionStore) → IsAddressed s
      → (put_blob ext bytes s).0 ≡ ok digest
      → (get_blob (put_blob ext bytes s).1 digest ≡ ok bytes) × IsAddressed (put_blob ext bytes s).1
  unfolding put_blob query modify pure
  get_blob-put_blob injective bytes digest s a h =
      let (path, e, h1, s1) = after_ok (query λ s'. blob_path (ext.hash_hex bytes)) _ s h in
      let write = λ (s' : SessionStore). record s' { blobs = write_blob path bytes s'.blobs } in
      let (u, _, h2, s2) = after_ok (modify {E = StoreError} write) _ s h1 in
      let named : path ≡ ext.hash_hex bytes = path_same (ext.hash_hex bytes) path e in
      let digested : ext.hash_hex bytes ≡ digest = cc h2 in
      rw (s1, s2)
        (read_back s path digest bytes (cc (named, digested))
          (subst (λ d. blob_path d ≡ ok path) digested e)
          (subst
            (λ d.
              (find_blob d (write_blob d bytes s.blobs) ≡ some bytes)
              × All (λ (f : Text × Bytes). f.0 ≡ ext.hash_hex f.1) (write_blob d bytes s.blobs))
            digested (write_blob-found s.blobs bytes injective a)))
