-- ===== src/Lib.antt =====
-- agent-cat: the Pi extension of ext-pi/src, which launches workflow runs, reads their event streams
-- and shows and controls them. The interpreter that writes the events is the Haskell part of the
-- repository and is not modelled; nor is the Lean model of it.
--
-- The parts of the extension that the library models:
-- * ext-pi/src/reducer.ts is Reducer: a snapshot of one run (State) is the fold of its journal
--   (Apply.reduce_all over Apply.reduce_event). An envelope is admitted (Envelope.admit: protocol,
--   run, timestamp, sequence number, end of the run), and its event is applied (Apply.apply) by one
--   function per case of the source's switch: to the run (Runs), to an occurrence (Occurrences,
--   Recovery, Dispatches), to an attempt (Attempts, Progress) or to the control acknowledgements
--   (Controls). Fields has the readers of an event's members, and Lists those of its arrays. What
--   the source throws is a value of Refusal, one for each message.
-- * ext-pi/src/manager/refresh.ts is Refresh: the coordination of fetches (Coordinator), the
--   reconnection backoff (Backoff) and the reconciliation of an uncertain command (Reconcile).
--   Freshness watches the coordination with clocks that the code does not have.
--
-- * ext-pi/src/manager/events.ts is Events: the cursors, entity tags and resources (Syntax), the
--   outcome of a block of lines (Blocks.block_of), the parser of the event stream (Parser.feed_sse),
--   and the JSON bodies of invalidations and polling batches (Records). Bytewise describes the stream
--   one byte at a time, with no chunks, and Chunks, Bounds and Resume compare the parser with it and
--   with its promises; Roundtrip and Accepted are about the bodies. Failure has the failures of the client.
-- * ext-pi/src/manager/json.ts is Json: the values (Value), the exact decimal value of a number
--   (Number), bounded integers (Integer), equality (Equality) and the encoding (Encode).
-- * ext-pi/src/manager/resources.ts is Resources, as far as the receipts of commands and captures:
--   the field readers (Fields), timestamps (Timestamp), operations and their scopes (Operation),
--   acknowledgements and effects (Evidence), and the decoders (Receipt, Capture).
-- * ext-pi/src/manager/transport.ts is Transport: the idempotency keys (Keys), the checks of a command
--   (Post) and of an answer (Answer), one connection to the event stream (Stream), the polling (Poll)
--   and the follow loop (Follow) over a record of what the caller and the network do (Follower).
-- * ext-pi/src/manager/session.ts is Session: the capability checks (Capabilities), the references and
--   the world that a read returns in (Service), the page sets (Scope, Pages), the reads and the
--   preparation of commands (Commands), their sending (Send) and their reconciliation (Reconciling). Live
--   is the state that the watched resources change (Resource tells which events concern which), with
--   the commit of an endpoint switch; Watched is its step relation. Session
--   uses Transport for keys and answers, Resources for receipts and Refresh for the reconciliation.
-- * ext-pi/src/config.ts is Config: the runners, the client mode and the other variables. Its entry to
--   node:path and JSON.parse is the record Node.
-- * ext-pi/src/root-role.ts is RootRole: the markers, the canonical path and the walk, over the record
--   Files for the file system, which does not change during the check, and node:path, whose documented
--   behaviour on absolute paths is a hypothesis of the theorem that the check ends.
-- * ext-pi/src/monitor.ts is Monitor, without the lines that it renders: the selection and the folds
--   of a view of the reducer's snapshot (Model).
--
-- How the model reads the code. A text is the list of its UTF-16 code units (Base.Texts). A Map in
-- insertion order is a list of keys and values (Base.Dict). A JSON value that the reducer reads is
-- Base.Value: an integer is exact, and a number that is no integer has no value of its own, since the
-- reducer reads none. A field that may be undefined is an Option. Where a text belongs to a closed set of spellings, the
-- model keeps an enumeration; the readers refuse every other spelling, as the source does. The source
-- copies a snapshot and changes the copy; the model returns the changed record, and a refusal returns
-- none, as the exception leaves the current snapshot as it was. Numbers are natural numbers: the
-- source reads sequence numbers as BigInt, and refuses them above 2^64 - 1.
--
-- What comes from outside is the record Reducer.State.Platform: SHA-256, Date.parse, the Unicode
-- classes of letters and numbers, and UTF-8; the strict UTF-8 decoder of Events is a parameter of its
-- own, which gives none where TextDecoder throws. The theorems hold for every such platform and
-- decoder. The tests run on ASCII texts (Reducer.Scenarios.ascii, Events.Tests.ascii).
--
-- What a session awaits is state passing: a read or a post takes a world and gives the answer and a
-- later world, in which anything may have happened to the session, so each check that the source makes
-- after an await is made in the later world.
--
-- Fuel bounds five loops. RootRole.read_bytes has a round for each byte of its buffer, and
-- RootRole.canonical_path one more than the path has code units; RootRole.Reads and RootRole.Unmarked
-- show that they are enough. Session.Pages.page_loop has 65536 rounds, since the index of a page that
-- has a page after it is below 65535; Session.Pages.Ends shows that they are enough.
-- Transport.Poll.poll_until and Transport.Follow.follow run as long as the session does: none stands
-- for a loop that goes on, and Transport.Closing shows that a closed transport ends them. All other
-- loops are structural recursion on a list or a bound of the source.
--
-- Not modelled: snapshotValue of the reducer, the jitter of the backoff (floating point), the route
-- records of the manager, the JSON parser, the decoding of the overview and the
-- follow loop of a session, the opening of a request, the other resources, the profiles, the supervisor and the
-- views. The files, the processes and the sockets of the extension are input and output.
mod Base
pub mod Config
pub mod Events
pub mod Json
pub mod Monitor
pub mod Reducer
pub mod Refresh
pub mod Resources
pub mod RootRole
pub mod Session
pub mod Transport
