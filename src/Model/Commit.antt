-- ===== src/Model/Commit.antt =====
-- crates/terratranslate-core/src/model.rs: `TranslationCommit::create` and `verify_id`. The ten
-- arguments of `create` are the fields of `CommitContent`, which it builds of them.
use terra_translate.Base.{
  Text-discrete, List, [], ◌∷◌, Bool, true, false, ite, Result, ok, err, ◌>>=◌, ◌>>◌, ok_or,
}
use terra_translate.Model.Data.{
  CommitId, CommitContent, TranslationCommit, CommitError, Externals, too_many_parents,
  duplicate_parent, encoding,
}

-- The two guards of `create`.
unfoldable pub check_parents : List CommitId → Result CommitError (Unit {0})
check_parents [] = ok tt
check_parents (p ∷ []) = ok tt
check_parents (p ∷ q ∷ []) = ite (Text-discrete p q) (err duplicate_parent) (ok tt)
check_parents (p ∷ q ∷ r ∷ rest) = err too_many_parents

module _ (ext : Externals) where
  -- `TranslationCommit::create`
  unfoldable pub create : CommitContent → Result CommitError TranslationCommit
  unfolding check_parents
  create content = do
    check_parents content.parents
    canonical ← ok_or (ext.content_json content) encoding
    ok (record { id = ext.hash_hex canonical; content = content })

  -- `TranslationCommit::verify_id`
  unfoldable pub verify_id : TranslationCommit → Result CommitError Bool
  unfolding create
  verify_id commit = do
    rebuilt ← create commit.content
    ok (ite (Text-discrete rebuilt.id commit.id) true false)
