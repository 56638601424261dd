-- ===== src/Hook/Book.antt =====
-- crates/terratranslate-wine-hook/src/lib.rs: `CandidateBook`, and how windows/mod.rs uses it on a
-- connection. The IDs that `Uuid::new_v4` returns are parameters; `none` is a panic.
use terra_translate.Base.{
  ℕ, zero, suc, ◌+◌, ◌-◌, ◌%◌, ◌^◌, ℤ, Text, Text-discrete, is_empty, List, [], ◌∷◌, length, Bool,
  true, false, not, ◌||◌, ltb, leb, Option, none, some, Result, ok, err, out_of_fuel, if◌then◌else◌,
  ite,
}
use terra_translate.Base.OrdMap
use terra_translate.Base.OrdMap.{OrdMap}
use terra_translate.Base.Table.{contains, add, discard}
use terra_translate.Base.Utf8.{char_bytes, as_bytes}
use terra_translate.Model.{Bytes}
use terra_translate.Protocol.{
  Uuid, ExecutableIdentity, windows, BridgeMessage, candidate, StableCandidateKey, IdentityError,
  max_sample_bytes, new_key, derive,
}

abbrev pub max_candidates : ℕ
max_candidates = 512

pub record Observation : Type 0 where
  pub adapter : Text
  pub api : Text
  pub callsite_module : Text
  pub callsite_offset : ℕ
  pub text : Text
  pub thread_id : ℕ
  pub timestamp_ms : ℤ

pub record CandidateState : Type 0 where
  pub id : Uuid
  pub last_text : Option Text
  pub sample : Observation
  pub advertised : Bool

pub record CandidateBook : Type 0 where
  pub executable_identity : ExecutableIdentity
  pub candidates : OrdMap CandidateState
  pub enabled : List Uuid
  pub sequence : ℕ

-- `CandidateBook::new`
abbrev pub new_book : ExecutableIdentity → CandidateBook
new_book executable_identity = record {
  executable_identity = executable_identity;
  candidates = [];
  enabled = [];
  sequence = 0;
}

abbrev pub prepend : ℕ → Option Text → Option Text
prepend c none = none
prepend c (some s) = some (c ∷ s)

-- The part of a text before byte `end`, if `is_char_boundary(end)`.
unfoldable pub before : Text → ℕ → Option Text
before text zero = some []
before [] (suc end) = none
before (c ∷ text) (suc end) =
    let width = length (char_bytes c) in
    let rest = before text (suc end - width) in if ltb (suc end) width then none else prepend c rest

abbrev pub or_shorter : Option Text → Text → Text
or_shorter none shorter = shorter
or_shorter (some s) shorter = s

-- `while !text.is_char_boundary(end) { end -= 1 }` and `truncate`
unfoldable pub truncated : ℕ → Text → Text
unfolding before
truncated zero text = []
truncated (suc end) text =
    let shorter = truncated end text in or_shorter (before text (suc end)) shorter

-- `bounded_utf8`
unfoldable pub bounded_utf8 : Text → ℕ → Text
unfolding truncated
bounded_utf8 text maximum =
    if ltb maximum (length (as_bytes text)) then truncated maximum text else text

abbrev pub message_of :
    Result IdentityError StableCandidateKey → Uuid → Observation → Option BridgeMessage
message_of (err problem) id observation = none
message_of out_of_fuel id observation = none
message_of (ok stable_key) id observation = some (
    candidate (record {
      candidate_id = id;
      stable_key = stable_key;
      adapter_id = observation.adapter;
      api = observation.api;
      caller_module = some observation.callsite_module;
      module_offset = some observation.callsite_offset;
      sample = bounded_utf8 observation.text max_sample_bytes;
      embeddable = false;
      metadata = [];
    }))

-- `candidate_message`
unfoldable pub candidate_message : Text → Uuid → Observation → Option BridgeMessage
unfolding new_key bounded_utf8
candidate_message stable_key id observation = message_of (new_key stable_key) id observation

-- `set_enabled`
unfoldable pub set_enabled : Uuid → Bool → CandidateBook → CandidateBook
unfolding add discard
set_enabled id true book = record book { enabled = add id book.enabled }
set_enabled id false book = record book { enabled = discard id book.enabled }

-- `disable_all`
abbrev pub disable_all : CandidateBook → CandidateBook
disable_all book = record book { enabled = [] }

-- The loop of `reset_connection`: the candidate at position `n` gets the ID `fresh n`.
unfoldable pub reset_from : (ℕ → Uuid) → ℕ → OrdMap CandidateState → OrdMap CandidateState
reset_from fresh n [] = []
reset_from fresh n ((k, s) ∷ m) =
    (k, record s { id = fresh n; last_text = none; advertised = false })
    ∷ reset_from fresh (suc n) m

-- `reset_connection`
unfoldable pub reset_connection : (ℕ → Uuid) → CandidateBook → CandidateBook
unfolding reset_from
reset_connection fresh book = record book {
  enabled = [];
  candidates = reset_from fresh 0 book.candidates;
}

abbrev pub Advertised : Type 0
Advertised = List BridgeMessage × OrdMap CandidateState

abbrev pub add_advertised :
    Text → CandidateState → Option BridgeMessage → Option Advertised → Option Advertised
add_advertised k s (some message) (some (messages, m)) =
    some (message ∷ messages, (k, record s { advertised = true }) ∷ m)
add_advertised k s _ _ = none

abbrev pub keep_advertised : Text → CandidateState → Option Advertised → Option Advertised
keep_advertised k s none = none
keep_advertised k s (some (messages, m)) = some (messages, (k, s) ∷ m)

-- The loop of `advertisements`.
unfoldable pub advertise : OrdMap CandidateState → Option Advertised
unfolding candidate_message
advertise [] = some ([], [])
advertise ((k, s) ∷ m) =
    let rest = advertise m in
    if s.advertised
    then keep_advertised k s rest
    else add_advertised k s (candidate_message k s.id s.sample) rest

abbrev pub with_advertised :
    CandidateBook → Option Advertised → Option (List BridgeMessage × CandidateBook)
with_advertised book none = none
with_advertised book (some (messages, m)) = some (messages, record book { candidates = m })

-- `advertisements`
unfoldable pub advertisements : CandidateBook → Option (List BridgeMessage × CandidateBook)
unfolding advertise
advertisements book = with_advertised book (advertise book.candidates)

abbrev pub is_last : Option Text → Text → Bool
unfolding Text-discrete
is_last none text = false
is_last (some last) text = ite (Text-discrete last text) true false

-- `observe` after the candidate was found or made.
unfoldable pub route :
    StableCandidateKey
    → CandidateState
    → Observation
    → CandidateBook
    → List BridgeMessage × CandidateBook
unfolding OrdMap.insert contains
route key state observation book =
    if not (contains state.id book.enabled) || is_last state.last_text observation.text
    then ([], record book { candidates = OrdMap.insert key state book.candidates })
    else let next = (book.sequence + 1) % 2 ^ 64 in
      (
        BridgeMessage.text (record {
          sequence = next;
          candidate_id = state.id;
          stable_key = key;
          thread_id = observation.thread_id;
          timestamp_ms = observation.timestamp_ms;
          text = observation.text;
          speaker = none;
          replacement_capacity_utf16 = none;
        })
            ∷ [],
        record book {
          candidates =
              OrdMap.insert key (record state { last_text = some observation.text })
                book.candidates;
          sequence = next;
        },
      )

abbrev pub announce :
    Option BridgeMessage
    → List BridgeMessage × CandidateBook
    → Option (List BridgeMessage × CandidateBook)
announce none (messages, book) = none
announce (some message) (messages, book) = some (message ∷ messages, book)

-- `observe` for the key of a text, with the candidate that has it, or else with the ID for a new one.
unfoldable pub observe_at :
    Option CandidateState
    → StableCandidateKey
    → Uuid
    → Observation
    → CandidateBook
    → Option (List BridgeMessage × CandidateBook)
unfolding candidate_message route
observe_at (some state) key id observation book = some (route key state observation book)
observe_at none key id observation book =
    if leb max_candidates (length book.candidates)
    then some ([], book)
    else announce (candidate_message key id observation) (
        route key (record { id = id; last_text = none; sample = observation; advertised = true })
          observation book)

module _ (hash_hex : Bytes → Text) (to_lowercase : Text → Text) where
  -- `stable_candidate_key`
  unfoldable pub stable_candidate_key : ExecutableIdentity → Text → Text → ℕ → StableCandidateKey
  unfolding derive
  stable_candidate_key executable adapter callsite_module callsite_offset =
      derive hash_hex to_lowercase windows executable adapter (some callsite_module)
        (some callsite_offset)

  -- `observe`
  unfoldable pub observe :
      Uuid → Observation → CandidateBook → Option (List BridgeMessage × CandidateBook)
  unfolding OrdMap.get observe_at derive
  observe id observation book =
      if is_empty observation.text
      then some ([], book)
      else let key =
          derive hash_hex to_lowercase windows book.executable_identity observation.adapter
            (some observation.callsite_module) (some observation.callsite_offset) in
        observe_at (OrdMap.get key book.candidates) key id observation book
