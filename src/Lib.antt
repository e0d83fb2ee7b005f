-- ===== src/Lib.antt =====
-- A model of the Cuna TypeScript SDK, the client package in src/ of the repository, with proofs of its
-- behaviour.
--
-- The package resolves a configuration (src/config.ts) and makes a client (src/client.ts) whose managers
-- validate their arguments, hand a named operation to a transport (src/internal/transport.ts), and check
-- what comes back. The transport looks the operation up in a table (src/internal/contract), prepares a
-- request, sends it, repeats it if it may, reads the response within a bound, scans it for prohibited
-- markers (src/internal/boundary-policy.ts and sanitize.ts), decodes it (src/domain.ts), and reports what
-- it does to an observer (src/internal/observer.ts).
--
-- Files:
-- - Base: the shared names. A JavaScript string is the list of its UTF-16 code units.
-- - Wire: the brands, and the origins, environment names and prefixes that are derived from them
--   (src/internal/wire-namespaces.ts).
-- - Contract: the table of operations; Contract/Safety: the repeatable ones and those with a key.
-- - Errors: the errors that are thrown.
-- - Boundary, with Escapes, Rolling and Tokens: `containsProhibitedMarker`; Json, with Sanitized:
--   `sanitizeWire`.
-- - Config, with Precedence and Accepted: `resolveConfig`.
-- - Client, with Invariant, Closing and Refinement: `ClientContext`, whose calls are the steps of a
--   relation.
-- - Transport: Prepare (`prepare`, `renderPath`), Delay (`uniformDelay`), Deadline (`deadlineFor`,
--   `totalDeadlineFor`), Body (`readLimited`), Disposition (`disposition`, `problemFailure`), Decoding
--   (the decoder of each operation), Observer
--   (`OperationObserver`) and Execute (`FetchTransport.execute`).
-- - Domain, the decoders of src/domain.ts: Grammar and Read (its patterns and small decoders), Chains
--   (what a chain of them has gone through), Dates (`dateTime`), Sync (`decodeWorkspaceSyncEnvelope` and
--   what it is made of), Agents (`decodeAgentSession`, `decodeAgentSessionPage`,
--   `decodeAgentSessionAuth`), Bindings (`decodeWorkspaceBinding`, `decodeMachineCreateRequest`),
--   Problems (`decodeProblem`, `decodeWorkspaceSyncProblem`), Sessions (`decodeSession`, `decodeExec`,
--   `decodeRecords` and others), Terminal (`decodeTerminalConnectionGrant`), Capabilities
--   (`decodeCapabilitySnapshot`), Handoff (`decodeOpen`), Me (`decodeMe`) and Redaction
--   (`redactOnSerialize`). A decoder comes to nothing where the code throws `DecodeFailure`.
-- - Requests, the managers: Value (what a caller may pass), Call (what a method asks of
--   `ClientPort.invoke`, and what it makes of the answer), Sync (src/workspace-sync.ts), Bindings
--   (src/workspace-bindings.ts), Agents (src/agent-sessions.ts), Sessions (src/session.ts, the managers
--   and `Cuna.me` of src/client.ts, src/machine-creates.ts) and Dispatched (the calls below the managers).
--
-- An argument is modelled as plain JavaScript data: objects without accessors, arrays without holes, and
-- no other classes. Where the source calls a pattern's `test` on an argument that its type says is a
-- string, the model refuses what is not a string. A method that refuses its arguments is a call that
-- comes to nothing, for which `perform` throws a `TypeError`.
--
-- What the code waits for is given to the model as data: a round of the transport's loop takes the
-- answers of the clock, the signals, `fetch` and the random source, and a body is the sequence of what
-- its reader yields. Times are whole milliseconds. The loop of the transport recurs on the attempts that
-- are left, so it needs no fuel. The loop of `uniformDelay` recurs on the random words that it is given,
-- and comes to nothing if all of them are rejected. The digits of a
-- number are found with one more step than the number, which is more than it has digits.
--
-- Parameters: `decodeURIComponent` and `toLowerCase` (their Unicode tables), UTF-8 decoding followed by
-- `JSON.parse`, `JSON.stringify`, `Date.parse`, `Number.isFinite`, `URL`, base64, SHA-256 and the random
-- bytes of Node, the environment of the process and the files that it can read. The transport takes the
-- decoders as a record of functions, so its theorems hold for all of them; a method takes what it asks
-- of `ClientPort.invoke` as a port.
--
-- Not modelled: error messages, the fields that all diagnostic events share, the cancelling of readers
-- and bodies, which has no effect on a result, the generated type declarations, and the scripts that
-- build, release and check the package.
pub mod Base
pub mod Wire
pub mod Contract
pub mod Errors
pub mod Boundary
pub mod Json
pub mod Config
pub mod Client
pub mod Transport
pub mod Domain
pub mod Requests
