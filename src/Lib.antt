-- ===== src/Lib.antt =====
-- TerraTranslate: models of the core of the program, and the theorems about them.
--
-- TerraTranslate translates the text of games. Text arrives from hooks and windows as turns, an engine
-- sends each turn to a model, and every translated turn becomes a commit of a history that branches
-- and merges like that of a version control system. When a game is played again, the history is
-- replayed: a turn that was translated before is recognised by its signature.
--
-- Which file models which part:
--
-- Model (crates/terratranslate-core/src/model.rs): the structs and enums of a history, field by field
-- (Model/Data), `TranslationCommit::create` and `verify_id` (Model/Commit), and content addressing
-- (Model/Address).
-- Merge (crates/terratranslate-core/src/merge.rs): `plan_context_merge` with `merge_scalar` and
-- `merge_map`; Merge/ThreeWay, Merge/Maps, Merge/Plan and Merge/Symmetry are about what it merges and
-- reports.
-- Signature (crates/terratranslate-core/src/replay.rs): `normalize_replay_text` and
-- `TurnSignature::from_pairs`; Signature/Order and Signature/Multiset.
-- Store (crates/terratranslate-store/src/lib.rs): the SQLite tables as lists of rows (Store/Schema), the
-- queries (Store/Read), the methods on `&mut self` as actions that hand the store back also beside an
-- error (Store/Exec, Store/Write, Store/Open, Store/Blobs), and the walks over the commit graph
-- (Store/Walk). Store/Integrity, Store/Keeping and Store/History are about the invariant of the
-- database, Store/Heads and Store/Branches about the heads of branches, Store/RoundTrip and Store/Content
-- about reading what was written, Store/Respects about effects in general, and Store/Lineage about the first-parent
-- history.
-- Replay (crates/terratranslate-engine/src/replay.rs): the replay cursor (Replay/Cursor) and its steps
-- (Replay/Steps), and the search for the position at which a history is resumed (Replay/Resume):
-- Replay/Reading, Replay/Located and Replay/Occurrences are about the occurrences of the observed turns
-- in the paths, Replay/Candidates and Replay/Ranking about the candidates and their order.
-- Processor (crates/terratranslate-core/src/processor.rs): the processors of texts, among them
-- `RepeatSuppressor` (Processor/Repeats).
-- Prompt (crates/terratranslate-core/src/prompt.rs): the values that templates show (Prompt/Data), the
-- macros, filters and conditions (Prompt/Macros, Prompt/Values) and the renderer (Prompt/Render), with
-- the lengths of what it cuts (Prompt/Sizes) and its end (Prompt/Fuel, Prompt/Ending).
-- Provider (crates/terratranslate-provider/src/lib.rs): requests, responses and `validate_request`
-- (Provider/Validation). The model itself is a function from requests to responses.
-- Engine (crates/terratranslate-engine/src/lib.rs): `translate_turn` (Engine/Turn) with its parts:
-- `prepare_context` and `apply_patch` (Engine/Context), `run_stage` (Engine/Stages), the loop over the
-- inputs (Engine/Gather), and the request and the commit (Engine/Request). Engine/Keeping,
-- Engine/Advance, Engine/Failure and Engine/Scratchpad are about a turn that keeps the database, that
-- succeeds, that fails, and that forgets the scratchpad.
-- Hook (crates/terratranslate-wine-hook/src): `CandidateBook` of lib.rs (Hook/Book) and what the worker
-- in windows/mod.rs does with it (Hook/Session). Hook/Keys, Hook/Limits, Hook/Announced and Hook/Sound
-- are about the number of candidates, the length of samples, and announcements before texts.
-- Launch (crates/terratranslate-platform-linux/src/native_launch.rs): the launch of an application with
-- the hook library (Launch/Plan), the arguments and the option for Steam (Launch/Arguments), and
-- `ElfIdentity::read` (Launch/Elf). Launch/Checks is about what is launched, Launch/Quoting about quoted
-- arguments, Launch/Headers about files that are cut short, and Launch/Bare about the working directory
-- of a name without a path. The files, the environment and the start of a process are a parameter.
-- Protocol (crates/terratranslate-wine-protocol/src/lib.rs): the messages between hooks and host, the
-- authentication token (Protocol/Token), stable keys (Protocol/Keys) and the wire (Protocol/Wire).
-- Bridge (crates/terratranslate-platform-linux/src/wine_bridge.rs): the host's side of the hooks: errors,
-- events and identities (Bridge/Data), the limits of messages (Bridge/Validate), frames and the handshake
-- (Bridge/Handshake), the methods of `HookService` (Bridge/Service), the tasks of connections
-- (Bridge/Tasks) and all their interleavings (Bridge/Run). Bridge/Frames, Bridge/Tokens and
-- Bridge/Admission are about the handshake, Bridge/Invariant with Bridge/Keeping, Bridge/Sound,
-- Bridge/Advance, Bridge/Calls and Bridge/Safety about what always holds, Bridge/Quiet, Bridge/Mute,
-- Bridge/Commands and Bridge/Silence about disabled candidates.
-- Base: shared helpers. `String` is the list of its Unicode scalar values (Base/Strings), `BTreeMap` an
-- association list in ascending order (Base/OrdMap), `sort_by` the insertion sort with the same
-- result (Base/Sort), and UTF-8 is Base/Utf8. Samples and Tests hold concrete inputs.
--
-- How state and operations correspond: a `&self` method takes the store, a `&mut self` method is a
-- function from the store to a result and the store. SQL statements are written out as functions on
-- rows, with the primary keys and ON CONFLICT clauses of the schema. A transaction is one step.
--
-- The service of the hook bridge is shared by the thread of the user interface and the tasks of the
-- connections. One step of the model is one use of the shared state under one lock; `run` takes the steps
-- in any order that is given to it, so a theorem on `run` is one on every interleaving. The text of a
-- message for the user is given by the values that it is formatted from.
--
-- While the model answers, other connections may change the database: `translate_turn` of the model
-- takes this change as the function `meanwhile`, which it applies before the answer. A processor may
-- keep state, so its answer also depends on the number of the call.
--
-- Fuel: `loop` and `while` over the commit graph recur on a number that starts at three times the
-- number of stored commits and two more (four times for the full history); every step of the
-- first-parent walk goes to a commit that was stored earlier. The loops over a template recur on the
-- length of the source and one more, since every tag that is read leaves a shorter text.
--
-- Parameters: BLAKE3 and serde_json (the records `Externals` and `PromptExternals`), rmp_serde, regular
-- expressions, the case tables of Unicode, random UUIDs, measured times, and the order in which a
-- `HashMap` is iterated over. What a theorem assumes of them is among its hypotheses: that a commit
-- reads back as it was written, and that digests and encodings do not collide.
--
-- Not modelled: failures of the disk and of SQLite itself; the GTK user interface, the command line, the
-- loading of plugins, PipeWire and portal capture, the search for processes in /proc and the injection
-- into them, which are calls of foreign libraries and of the system; the hooks' interception of foreign
-- APIs; the sampling of frames and speech, which is computed with floating point numbers; and the vendored
-- MinHook.
pub mod Base
pub mod Model
pub mod Merge
pub mod Signature
pub mod Store
pub mod Replay
pub mod Processor
pub mod Prompt
pub mod Provider
pub mod Engine
pub mod Protocol
pub mod Bridge
pub mod Launch
pub mod Hook
pub mod Samples
mod Tests
