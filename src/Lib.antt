-- ===== src/Lib.antt =====
-- goros, a client library for the RouterOS API: its protocol, its client, and its validation layers.
--
-- The parts, from the wire up, and the modules that model them:
--
-- - Roserr (roserr/roserr.go): the error taxonomy. A Go `error` is a `GoError`, a pair of a value and
--   an error is a `Result`. `Roserr.Chain` has `IsCode`, `ContextOf` and the walk of `errors.Is` and
--   `errors.As` through causes and joined errors, `Roserr.Render` the `Error` methods.
-- - Proto (proto/): `Proto.Sentence` the sentence; `Proto.Length` the length prefix (`encodeLength`,
--   `readNumber`, `readLength`); `Proto.Writer` the writer with its sticky error and the mutex that
--   `BeginSentence` takes and `EndSentence` frees; `Proto.Reader` `ReadSentence`. Bytes are natural
--   numbers, a stream is the list of the bytes that it still delivers. The connection below the writer
--   is a `Link`, which may refuse any write or flush. `Proto.Cancel` has `Close` and `Cancel` of the
--   reader and the writer (io_context.go) in their atomic steps, one call after another and
--   interleaved.
-- - Client (reply.go, error.go, run.go, async.go, listen.go, cancel.go, chan_reply.go, client.go):
--   `Client.Reply` a reply and its sentences; `Client.Sync` `runArgsContextSync`; `Client.Processor`
--   the receivers of asynchronous mode, where closing a closed channel or sending on one is a panic;
--   `Client.Translate` the translations of client_transport.go into canonical form;
--   `Client.Async` the client's state and each of its operations: `async_context`, `start_run`
--   (`RunArgsContext` up to its wait), `start_listen` (`ListenArgsQueueContext`), `register_cancel` and
--   `send_cancel` (`cancelTag` before and after it frees the mutex), `deliver` (one round of
--   `asyncLoop`), `close_tags`, `close_client`. `Client.Async.Steps` makes them a step relation: the
--   goroutines of a client take these steps in any order. `Client.Async.Sound` has the invariant,
--   `Client.Async.Rounds` the loop, round after round, on sentences, `Client.Async.Traces` its
--   rounds among the steps of other goroutines, and `Client.Async.Loop` the loop on bytes.
--   `Client.Conversation` composes the writer and `runArgsContextSync` to `RunArgsContext` in
--   synchronous mode, on bytes; its specification answers sentences, and `Client.Conversation.OnWire`
--   serves the callers that send one sentence after another. `Client.Login` has
--   `LoginContext`, the challenge response and the dialing functions, `Client.Life` `Close` with the
--   channels of the reader and the writer, which the steps of `Client.Async` leave aside, `Client.Entry` the convenience functions.
-- - Transport (transport/contract.go): the canonical command with `CLI`, `ConsoleCLI` and `Words`, the
--   canonical reply, and the inspect nodes. A Go map is an association list whose order is the order
--   of a `range`; `Transport.Order` is about other orders of it, `Transport.Said` about what the
--   words of a command tell of it. `Transport.Literal` is the reading of a RouterOS string literal
--   that the renderings are measured by; it translates no code, and of a literal with a substitution
--   (`$`) or an escape other than `\"`, `\\` and `\$` it says nothing but that it has to be evaluated.
--   `Transport.Seam` is the interface of structured transports with the refusal that it asks for;
--   the session and the mock fill it.
-- - Schema (schema/): the schema of a command, the names that probes give, the TTL cache, whose
--   operations take the time at which they run, and `Discover` against a device whose answers may
--   depend on all the probes before (`Schema.Store`).
-- - Gate (gate/): `Gate.Quotes` the string literal and the quote check, `Gate.Classify` the pure
--   classifier with each of its regular expressions as a function, `Gate.Syntax` Gate 1 and the console
--   adapter, `Gate.Attributes` Gate 2 over the schema store.
-- - Session (client_transport.go): `List`, `Command`, `InspectNodes` and the probes of a session over
--   what `RunArgsContext` returns for a sentence after those sent before (`Wire`).
-- - Orchestrate (orchestrate.go): `ensureRun`, `Validate`, `Inspect` and `RunStructured`: the session, its
--   store and both gates composed. What the gates and the store ask is part of what the session sends.
--   `Orchestrate.OnWire` takes the session down to the bytes of `Client.Conversation`.
-- - `Session.Adapter` (client_transport.go, transport/nativeapi/): the session as a structured transport.
-- - Ssh (transport/ssh/): `Ssh.Output` the cleaning of a console's output, `Ssh.HostKeys` the store of
--   host keys, `Ssh.Errors` `mapSshError`, `Ssh.Dial` the options and `Dial`, `Ssh.Session` `Run`,
--   `Close` and `Validate`. What net, os, golang.org/x/crypto/ssh and knownhosts do is a `Platform`
--   and, for one call of `Run`, a `Call`.
-- - Mock (transport/mock/): the scripted transport and its counters.
-- - Tools (examples/): `Tools.Table` the polling and the table of examples/tab, `Tools.Programs`
--   examples/run and examples/listen, `Tools.Streams` examples/multi_listen. What the client returns and
--   the flags are arguments.
-- - Common: byte texts, association lists, sorting, decimals and bits.
--
-- The layers meet where the code has interfaces: Gate 2 calls `discover` of the store, Gate 1 and the
-- store ask the transport, which is an argument (`Gate1.transport`, `Device`) that answers by the
-- history of what it was asked; the client in synchronous mode runs on `read_sentence`, and the
-- client in asynchronous mode sends through the writer.
--
-- Fuel and bounds: `read_loop` runs on fuel, one round for each byte of the stream and one more, since
-- every word takes a byte at least; `run_loop` likewise, since every sentence takes a byte, and so does
-- `async_loop`. Shifts of an int64 are taken modulo 2^64, a byte modulo 2^8. A length that is encoded is
-- any natural number. `nextTag` counts the tags without the wrap of an int64, which the 2^63rd tag of a
-- client would meet.
--
-- A stream ends with EOF: a read that comes short is `io.EOF` or `io.ErrUnexpectedEOF`, and other errors
-- of a connection (one that was closed, one that timed out) are not distinguished from the first.
--
-- Not modelled: the meeting of `Close` with `Cancel` of the loop's context within a history of the client;
-- logging; the flag parsing and the signals of the examples; the clock readings that the
-- metrics hold; channel buffers and the wait of a caller; the debugging form of a sentence, which is a
-- parameter where a text has it. What stands outside the repository is a parameter: the connection,
-- md5, the dialers of net and crypto/tls, and the SSH package. Texts are compared bytewise, white space
-- is that of ASCII, and `(?i)` folds case for ASCII letters only.
pub mod Common
pub mod Proto
pub mod Roserr
pub mod Client
pub mod Transport
pub mod Schema
pub mod Gate
pub mod Session
pub mod Ssh
pub mod Mock
pub mod Tools
pub mod Orchestrate
