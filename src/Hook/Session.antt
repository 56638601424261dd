-- ===== src/Hook/Session.antt =====
-- crates/terratranslate-wine-hook/src/windows/mod.rs: what the worker does with the candidates from one
-- message of the host or one observation to the next, on one connection after the other.
use terra_translate.Base.{Text, ℕ, List, [], ◌∷◌, true, false, Option, none, some}
use terra_translate.Model.{Bytes}
use terra_translate.Protocol.{Uuid, ExecutableIdentity, BridgeMessage}
use terra_translate.Hook.Book.{
  Observation, CandidateBook, new_book, set_enabled, disable_all, reset_connection, advertisements,
  observe,
}

-- The messages of a connection, the latest first, after more are handed to it in order.
abbrev pub after : List BridgeMessage → List BridgeMessage → List BridgeMessage
after [] sent = sent
after (message ∷ messages) sent = after messages (message ∷ sent)

pub record Session : Type 0 where
  pub book : CandidateBook
  pub sent : List BridgeMessage

abbrev pub new_session : ExecutableIdentity → Session
new_session executable = record { book = new_book executable; sent = [] }

-- A connection with new IDs, a message of the host, and an observation with the ID that a new
-- candidate gets.
pub data Event : Type 0 where
  connect : (ℕ → Uuid) → Event
  enable : Uuid → Event
  disable : Uuid → Event
  disable_every : Event
  observed : Uuid → Observation → Event

abbrev pub hand_over :
    Option (List BridgeMessage × CandidateBook) → List BridgeMessage → Option Session
hand_over none sent = none
hand_over (some (messages, book)) sent = some (record { book = book; sent = after messages sent })

-- The candidates on a new connection.
abbrev pub begin_connection :
    (ℕ → Uuid) → CandidateBook → Option (List BridgeMessage × CandidateBook)
begin_connection fresh book = advertisements (reset_connection fresh book)

module _ (hash_hex : Bytes → Text) (to_lowercase : Text → Text) where
  unfoldable pub handle : Event → Session → Option Session
  unfolding set_enabled reset_connection advertisements observe
  handle (connect fresh) session = hand_over (begin_connection fresh session.book) []
  handle (enable id) session = some (record session { book = set_enabled id true session.book })
  handle (disable id) session = some (record session { book = set_enabled id false session.book })
  handle disable_every session = some (record session { book = disable_all session.book })
  handle (observed id observation) session =
      hand_over (observe hash_hex to_lowercase id observation session.book) session.sent

  -- The events one after the other.
  unfoldable pub play : List Event → Option Session → Option Session
  unfolding handle
  play [] session = session
  play (event ∷ events) none = none
  play (event ∷ events) (some session) = play events (handle event session)
