-- ===== src/Tests/HookTests.antt =====
-- The candidates of a hooked process (crates/terratranslate-wine-hook/src): a text that is announced,
-- enabled, seen again, and announced again on the next connection.
use terra_translate.Base.{
  ℕ, ℕ_discrete, Text, Text-discrete, text_cmp, txt, List, [], ◌∷◌, length, Option, none, some, pos,
  ◌++◌, ◌≡◌, refl, ◌+◌, map,
}
use terra_translate.Base.Utf8.{as_bytes}
use terra_translate.Model.{Bytes}
use terra_translate.Protocol.{ExecutableIdentity, BridgeMessage, candidate}
use terra_translate.Hook.Book.{Observation, bounded_utf8}
use terra_translate.Hook.Session.{
  Session, new_session, Event, connect, enable, disable, observed, play,
}
use terra_translate.Hook.Sound.{IsSoundSession, play-IsSound}
use terra_translate.Samples.{digits}

abbrev seen : Text → Observation
seen text = record {
  adapter = txt "gdi";
  api = txt "ExtTextOutW";
  callsite_module = txt "game.exe";
  callsite_offset = 16;
  text = text;
  thread_id = 1;
  timestamp_ms = pos 5;
}

abbrev game : ExecutableIdentity
game = record { path = txt "game.exe"; image_id = none }

abbrev hash : Bytes → Text
hash bytes = digits

abbrev same : Text → Text
same s = s

abbrev events : List Event
events =
    connect (λ n. n)
    ∷ observed 7 (seen (txt "one"))
    ∷ enable 7
    ∷ observed 8 (seen (txt "one"))
    ∷ observed 9 (seen (txt "one"))
    ∷ disable 7
    ∷ observed 9 (seen (txt "two"))
    ∷ []

abbrev kind : BridgeMessage → ℕ
kind (candidate c) = c.candidate_id
kind (BridgeMessage.text event) = 100 + event.candidate_id
kind _ = 0

abbrev kinds : Session → List ℕ
kinds session = map kind session.sent

abbrev sent_ids : Option Session → List ℕ
sent_ids none = []
sent_ids (some session) = kinds session

session_test : sent_ids (play hash same events (some (new_session game))) ≡ 107 ∷ 7 ∷ []
unfolding play Text-discrete ℕ_discrete text_cmp
session_test = refl

again_test :
    sent_ids (play hash same (events ++ connect (λ n. n + 20) ∷ []) (some (new_session game)))
    ≡ 20 ∷ []
unfolding play Text-discrete ℕ_discrete text_cmp
again_test = refl

bounded_test : bounded_utf8 (txt "aé") 2 ≡ txt "a"
unfolding bounded_utf8 as_bytes
bounded_test = refl

digest_length : length (as_bytes digits) ≡ 64
unfolding as_bytes
digest_length = refl

play-IsSound_example : IsSoundSession (play hash same events (some (new_session game)))
play-IsSound_example = play-IsSound hash same (λ b. digest_length) game events
