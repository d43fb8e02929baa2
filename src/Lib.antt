-- ===== src/Lib.antt =====
-- Codex Remote Bridge: a VS Code extension and a shim that let a local Codex work on a remote host.
--
-- The program. The shim (src/shim) stands between the clients of Codex and its app server and reads
-- their JSON-RPC traffic; the local extension (src/extension) owns the state of the bridge and talks
-- over a socket (src/core/vscode-transport.ts) to the Executor, the extension on the remote host
-- (src/remote-extension), which runs commands, background tasks and the stdio sessions of remote MCP
-- servers. What is retried on this way meets the operation ledger (src/core/operation-ledger.ts),
-- which knows what has been started. A configuration (src/core/config.ts) says which host and which
-- directories the bridge works on. Of the core that runs beside VS Code, the shim lets through what
-- src/shim/local-core-policy.ts allows, and it keeps the server subscribed to the threads of the
-- workspace (src/shim/thread-recovery.ts).
--
-- Which file models what:
--   Base                 shared names of the library; Boolean tests, lists and dictionaries.
--   Errors               src/core/errors.ts and the codes of src/core/types.ts. A method that throws
--                        returns a `Result`; an error keeps its code and its message.
--                        Codes reasons about the codes that a method can throw.
--   StateMachine         src/core/state-machine.ts, `BridgeStateMachine`: `transition`, `onChange`,
--                        `assertOperational`; a call returns the notifications that it makes.
--                        Listening is about the set of listeners and what each of them hears.
--   Ledger               src/core/operation-ledger.ts, `OperationLedger`. Types holds the state,
--                        Calls the methods under their names, Steps the step relation, in which an
--                        operation ends (`settle`) at any time between calls, and `clearPrefix` is two
--                        steps around its `await`. Objects have an identity (`uid`), so that an entry
--                        that `close` has dropped still settles. The clock is an argument.
--   Background           src/remote-extension/background-tasks.ts. Log is `BoundedTaskLog`, a page's `read`
--                        included; Reading and Paging say what clients see of the output. Tasks is
--                        `BackgroundTask` and what changes one, Registry the state and the room of
--                        `RemoteBackgroundTasks`, Calls its methods: tasks are objects in a heap, since
--                        callbacks reach one that the map has dropped; a method that waits is two
--                        functions (`start_begin` and `start_resolved`, `stop_workspace_begin` and
--                        `_end`). Steps has its histories, Lifecycle, Index, Edits, Effects and
--                        Outcomes what becomes of the tasks in them.
--   Mutations            src/core/workspace-mutations.ts: the checks of hashes and of base64 text, and
--                        `applyWorkspacePatch`; texts are lists of UTF-16 code units.
--   Json, Rpc            values of messages, and src/shim/rpc.ts.
--   Callbacks            src/shim/request-callback-queue.ts, the callbacks of `RequestCallbackQueue`: a promise
--                        is a number, `resolved` the answers given; Settling and Histories count them.
--                        Lanes is `enqueue`, whose chains of promises share no state with the
--                        callbacks; LaneSteps has their histories, LaneOrder the order in a lane.
--   Config               src/core/config.ts: Text and Roots hold the checks of texts and roots, Parse
--                        `parseBridgeConfig`. Printed is the object that a configuration is, Checks
--                        says when one is well formed; Accepted, Rejected and RoundTrip relate them.
--   Sessions             src/remote-extension/stdio-sessions.ts, `RemoteStdioSessions`. Launch is
--                        src/core/remote-mcp-policy.ts and src/core/remote-mcp-adapters.ts, Framing
--                        the frames of `queueData`, Table the state, the methods and the callbacks of
--                        processes and timers, History the step relation. A session is an object
--                        that its callbacks keep; `start` is two functions around its `await`.
--   LocalCore            src/shim/local-core-policy.ts.
--   Recovery             src/shim/thread-recovery.ts, `ThreadSubscriptionRecovery`. Status is
--                        `threadStatus`, State the fields, Cycle the parts of `refresh` between the
--                        places where it waits, Calls what arrives from outside, Steps the histories.
--   Rewriting            src/shim/rewrite.ts: the parameters of a method are made in Rewriting itself,
--                        Sending is `rewriteClientMessage`; Params and Laws say what is left of what a
--                        client asks for. The texts for the model are a parameter (`Notes`).
--   ThreadLifecycle      src/shim/thread-lifecycle.ts, `ThreadLifecycleIndex`; `string_of` is the
--                        language's `String`, with the decimal form of every number.
--   Transport            the guards of src/core/vscode-transport.ts, and `handleOutput` of
--                        src/extension/vscode-transport-server.ts. Events has the events of the
--                        Executor and their messages, Shapes what a guard's test says of a value.
--   Approval             src/shim/remote-approval-policy.ts, `RemoteApprovalPolicyTracker`: what it learns
--                        from both directions, when an approval is asked for (Tracker, Safety), and
--                        what VS Code is shown of permissions (Projection, Hiding, ConfigRead,
--                        Shown).
--
-- Names: camelCase becomes snake_case; a method takes its object last and returns it changed.
--
-- Bounds and fuel. Numbers are natural numbers: the counters of the program count entries, bytes and
-- milliseconds far below 2^53; the numbers of a JSON value are natural numbers. Two loops have a
-- bound on their steps. `read_all`, a client's loop over pages: each page but the last moves its
-- cursor, so that one more than the length of the output is enough, which the theorem on it asks for.
-- `frames`, the loop of `queueData`: it has as many steps as the chunk has bytes, and each step goes on
-- by one byte at least, so that the theorem on it holds for every chunk. The decimal form of a number
-- n has n + 1 steps. The loop of `refresh` over pages needs none, since the source stops it after
-- 100 pages. All other loops are structural.
--
-- Not modelled: sockets, processes, files and timers, which are the platform's (the SSH and VS Code
-- executors, the proxy and the shared app server, the controller of the extension, launchers, relays),
-- and the text patches of other extensions. Parameters, of which nothing is assumed, are the path
-- functions of the platform (background tasks, Config, LocalCore), the byte length of a snapshot's JSON
-- text (ledger), `requestFingerprint` (background tasks, whose process ids are left out), and UTF-8 and
-- base64 decoding (writes, patches, sessions). Left out are the base64 form of a log's events and of a
-- session's chunks, `details` and `cause` of errors, the search for an executable on PATH
-- (`resolveRemoteMcpExecutable`), the tree of processes that a signal goes to, `localCodexAttachmentRoot`,
-- which reads the environment, and the interval at which `refresh` is called. The texts that a rewritten
-- request carries to the model (`remotePolicy`, `formatEditorContext`, the inventory of tool routes) are
-- parameters too: nothing but the model reads them.
pub mod Base
pub mod Errors
pub mod StateMachine
pub mod Ledger
pub mod Background
pub mod Json
pub mod Rpc
pub mod ThreadLifecycle
pub mod Transport
pub mod Approval
pub mod Mutations
pub mod Callbacks
pub mod Config
pub mod Sessions
pub mod LocalCore
pub mod Recovery
pub mod Rewriting
