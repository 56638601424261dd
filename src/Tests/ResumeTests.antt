-- ===== src/Tests/ResumeTests.antt =====
-- The search for a position to resume at (crates/terratranslate-engine/src/replay.rs), in a path with
-- one turn, whose text is stored as a blob.
use mathlib.Core.List.{Permᴰ}
use mathlib.Core.List.Permᴰ
use terra_translate.Base.{
  ℕ, ℕ_discrete, Text-discrete, is_whitespace, Text, txt, List, [], ◌∷◌, none, ◌≡◌, refl, leb, ◌+◌,
  ◌&&◌, if◌then◌else◌,
}
use terra_translate.Base.OrdMap
use terra_translate.Model.{SourceEvent, TranslationCommit, Modality, Modality-discrete, SourceKind}
use terra_translate.Signature.{TurnSignature, TurnSignature-discrete}
use terra_translate.Store.Schema.{SessionStore, ReplayPath}
use terra_translate.Store.Open.{no_rows}
use terra_translate.Store.Blobs.{commit_replay_signature, is_structural_commit}
use terra_translate.Replay.Cursor.{ResumeCandidate}
use terra_translate.Replay.Resume.{Raw, find_resume_candidates}
use terra_translate.Replay.Candidates.{IsSearched, candidates-IsSearched}
use terra_translate.Replay.Ranking.{find_resume_candidates_order}
use terra_translate.Samples.{digits, reply, root_commit}

-- `char::to_lowercase` on ASCII.
abbrev lower : ℕ → Text
lower c = if leb b'A' c && leb c b'Z' then (c + 32) ∷ [] else c ∷ []

abbrev heard : SourceEvent
heard = record {
  id = 0;
  captured_at_ms = reply.created_at_ms;
  modality = Modality.text;
  source = SourceKind.manual;
  target = txt "window";
  payload = record { digest = digits; media_type = txt "text/plain"; byte_len = 3 };
  metadata = (txt "stable_hook_key", txt "hook") ∷ [];
}

abbrev spoken : TranslationCommit
spoken = record { id = 4 ∷ []; content = record reply { source_events = heard ∷ [] } }

abbrev store : SessionStore
store = record no_rows { blobs = (digits, txt "Yes") ∷ [] }

abbrev main_path : ReplayPath
main_path = record {
  branch = record { name = txt "main"; head = 4 ∷ []; updated_at_ms = reply.created_at_ms };
  commits = root_commit ∷ spoken ∷ [];
}

abbrev side_path : ReplayPath
side_path = record main_path {
  branch = record { name = txt "side"; head = 4 ∷ []; updated_at_ms = reply.created_at_ms };
}

abbrev observed : TurnSignature
observed = record { entries = (txt "hook", txt "yes") ∷ [] }

-- The first two of the values change places.
abbrev exchange : List Raw → List Raw
exchange [] = []
exchange (a ∷ []) = a ∷ []
exchange (a ∷ b ∷ l) = b ∷ a ∷ l

exchange-Permᴰ : (l : List Raw) → Permᴰ (exchange l) l
exchange-Permᴰ [] = Permᴰ.nil
exchange-Permᴰ (a ∷ []) = Permᴰ.refl (a ∷ [])
exchange-Permᴰ (a ∷ b ∷ l) = Permᴰ.swap refl refl

abbrev expected : ResumeCandidate
expected = record {
  game_id = none;
  branch = txt "main";
  commit_id = 1 ∷ [];
  next_commit_id = 4 ∷ [];
  next_index = 1;
  matched_turns = 1;
  occurrence_count = 1;
}

resumed :
    find_resume_candidates exchange lower store (side_path ∷ main_path ∷ []) (observed ∷ []) none
    ≡ expected ∷ []
unfolding find_resume_candidates is_structural_commit is_whitespace commit_replay_signature
    Modality-discrete OrdMap.get Text-discrete ℕ_discrete TurnSignature-discrete OrdMap.insert
resumed = refl

candidates-IsSearched_example :
    IsSearched exchange exchange-Permᴰ lower store (side_path ∷ main_path ∷ []) observed [] none
candidates-IsSearched_example =
    candidates-IsSearched exchange exchange-Permᴰ lower store (side_path ∷ main_path ∷ []) observed
      [] none

find_resume_candidates_order_example :
    find_resume_candidates exchange lower store (side_path ∷ main_path ∷ []) (observed ∷ []) none
    ≡ find_resume_candidates (λ l. l) lower store (side_path ∷ main_path ∷ []) (observed ∷ []) none
find_resume_candidates_order_example =
    find_resume_candidates_order lower store (side_path ∷ main_path ∷ []) observed [] none exchange
      (λ l. l) exchange-Permᴰ Permᴰ.refl
