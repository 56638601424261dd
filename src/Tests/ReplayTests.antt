-- ===== src/Tests/ReplayTests.antt =====
-- Signatures and replay (crates/terratranslate-core/src/replay.rs, terratranslate-engine/src/replay.rs).
use mathlib.Core.List.{Perm}
use terra_translate.Base.{
  ℕ, Text, txt, List, [], ◌∷◌, ◌≤◌, none, some, ◌≡◌, ◌↔◌, refl, arith, leb, ◌+◌, ◌&&◌,
  if◌then◌else◌,
}
use terra_translate.Signature.{TurnSignature, normalize_replay_text, normalize_pairs, from_pairs}
use terra_translate.Signature.Multiset.{from_pairs_iff}
use terra_translate.Store.Open.{no_rows}
use terra_translate.Replay.Cursor.{ReplayCursor, step, at_head}
use terra_translate.Replay.Steps.{IsOnPath, Outcome, step-Outcome, step-IsOnPath}
use terra_translate.Samples.{root_commit}

-- `char::to_lowercase` on ASCII.
abbrev lower : ℕ → Text
lower c = if leb b'A' c && leb c b'Z' then (c + 32) ∷ [] else c ∷ []

folded : normalize_replay_text lower (txt "  FOO\t BAR  \n  ok ") ≡ txt "foo bar\nok"
unfolding normalize_replay_text
folded = refl

abbrev first : List (Text × Text)
first = (txt "choice", txt " YES ") ∷ (txt "dialogue", txt "Hello") ∷ (txt "choice", txt "yes") ∷ []

abbrev second : List (Text × Text)
second = (txt "dialogue", txt "hello") ∷ (txt "choice", txt "yes") ∷ (txt "choice", txt "YES") ∷ []

same_signature : from_pairs lower first ≡ from_pairs lower second
unfolding from_pairs
same_signature = refl

from_pairs_iff_example :
    (from_pairs lower first ≡ from_pairs lower second)
    ↔ Perm (normalize_pairs lower first) (normalize_pairs lower second)
from_pairs_iff_example = from_pairs_iff lower first second

abbrev cursor : ReplayCursor
cursor = record {
  game_id = none;
  branch = txt "main";
  path = root_commit ∷ root_commit ∷ [];
  position = 0;
}

abbrev observed : TurnSignature
observed = record { entries = [] }

head_reached : (step lower no_rows observed cursor).1 ≡ some at_head
unfolding step
head_reached = refl

step-Outcome_example :
    Outcome lower no_rows observed cursor
      (step lower no_rows observed cursor).0
      (step lower no_rows observed cursor).1
step-Outcome_example = step-Outcome lower no_rows observed cursor (omega arith)

step-IsOnPath_example :
    IsOnPath (step lower no_rows observed cursor).0
    × (cursor.position ≤ (step lower no_rows observed cursor).0.position)
    × ((step lower no_rows observed cursor).0.path ≡ cursor.path)
step-IsOnPath_example = step-IsOnPath lower no_rows observed cursor (omega arith)
