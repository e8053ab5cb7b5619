-- ===== src/Lib.antt =====
-- agent-tty: terminal sessions that outlive the command that starts them.
--
-- A host process owns one session: a program on a pseudo-terminal. The host keeps the session's
-- record (`SessionState`), appends everything that happens to the session's event log
-- (`EventLog`), and takes the echoed postambles and the sentinels of waited runs out of the
-- program's output before it is logged (`RunCompletionCoordinator`,
-- `RunCompletionPostambleEchoSanitizer`, `RunCompletionSentinelScanner`). It also answers the
-- terminal queries in that output (`TerminalQueryResponder`). The command line talks to the host: a
-- batch drives an ordered plan of steps through one session (`executeBatch`), and the screen of a
-- session is the replay of its event log into a terminal renderer (`replayInSlices`, `replayTo`).
-- A command waits for what a screen shows (`matchRenderWaitSnapshot`), and one compares two
-- screens by their lines (`diffLines`). The development models these parts; each directory of
-- modules stands for one.
--
-- Session: src/protocol/sessionStatusPolicy.ts and src/host/sessionState.ts. Session/Status holds
--   the policy table and `assertSessionStatusPolicy`; Session/State the record and the methods of
--   `SessionState`, each of them the next record or the message of the invariant that fails;
--   Session/Number JavaScript numbers as those invariants test them; Session/Lifecycle the diagram
--   of states and the sequences of calls. A throw leaves the record as it was, since a method
--   writes nothing before its last check.
-- EventLog: src/protocol/schemas.ts (the event records), src/storage/eventLogCodec.ts and
--   src/host/eventLog.ts. EventLog/Record holds the records and their payload checks,
--   EventLog/Codec the sequence check, the stop marker and the scan of lines, EventLog/Content the
--   text of a file as a whole and in chunks, EventLog/Store the writer's state with `enqueue`, the
--   rollback and the reading, EventLog/Append `queueAppend` and the actions that may interleave,
--   EventLog/Open the opening and EventLog/Close the closing. EventLog/Invariant, Rollback, Settle
--   and Durable are about every interleaving, EventLog/Stop, Kept, Reserve and Landed about the
--   limits, Stoppable, Acknowledged and Opening about what an opened log acknowledges,
--   EventLog/Reading and Scanned about the readers, and Stored, StoredRuns, Printed and Reopened
--   lead from what a host stores to the log that the next one opens. The promise chain `writeQueue`
--   is an explicit queue: a write waits, settles in a step of its own, and a rejected one runs its
--   last handler in a later step still; `append`, `close` and `readAll` are cut at each await. A
--   write that fails may leave a part of its line on disk (`torn`), as the end of the host in a
--   write does. `JSON.parse`, `JSON.stringify` and what zod reads of a record beside its payload
--   are parameters.
-- Batch: src/batch/plan.ts, executor.ts, result.ts and stepDriver.ts. Batch/Step holds the steps
--   and the records, Batch/Driver one step through the driver, Batch/Execute the loop,
--   Batch/Partial the result that a signal prints of an interrupted batch. Batch/Outcome is the
--   direct description of a batch, and Batch/Refinement compares the two; Batch/Shape, Follows and
--   Flush are about the records. The driver, the clock and the session check are parameters over a
--   world that each call may change.
-- Replay: src/renderer/replaySlices.ts, src/renderer/replayEvents.ts and `replayTo` of
--   src/renderer/libghosttyVt/backend.ts. Replay/Seq holds the positions and the binary search,
--   Replay/Slices the limits of a slice, Replay/Backend `replayTo` and `replayInSlices`;
--   Replay/SliceBounds is about one slice, and Replay/Resume, Positions, Continue, Whole,
--   OneSlice, InSlices and Refinement lead from one event to the whole log. The native terminal is
--   a parameter: a state type, with what it does on output and on a resize.
-- LineDiff: src/util/lineDiff.ts. LineDiff/Diff holds the table, the walk and the trimming of what
--   the two screens share; LineDiff/Sides and Middle read the entries back on each side.
-- RunCompletion: src/host/runCompletionSentinel.ts, its scanner and its sanitizer.
--   RunCompletion/Sentinel holds the markers and the sentinels, RunCompletion/Scanner the scanner,
--   RunCompletion/Reader a reference that reads one character after another; Matching, Scanning,
--   ScanLoop, Chunks and Stream lead from one sentinel to a stream of chunks, and Lossless,
--   Detected and Registered are about what is told and kept. The sanitizer, which takes the echo
--   of a run's postamble out of the output, is RunCompletion/Echo (the scan that tolerates
--   controls), Sanitizer (its searches) and Strip (its methods and its loop); EchoScan, EchoMatch,
--   EchoWhole, EchoParts, EchoSteps, EchoCarry, Stripped, SanitizerFeed and Sanitized lead from
--   one echo to a stream, and EchoRemoved is about a whole echo.
-- Coordinator: src/host/runCompletionCoordinator.ts, over the scanner and the sanitizer.
--   Coordinator/Postamble holds the `printf` that a shell is given, Coordinator/State the active
--   runs, the waiters and what registers and settles them, Coordinator/Tasks the ingestion of
--   output, and Coordinator/Machine the steps of a host: an ingestion is a list of tasks, one from
--   each await to the next, and registrations, timeouts, aborts and the exit come between them.
--   Counting, TaskWaits, Registering and Waiting are about the waits, Escapes and PostambleBuilt
--   about the postamble, Drawn about the loop that draws a sentinel. The appender is a parameter
--   over a world that each call may change, and so are the UTF-8 bytes of a text, the random tokens
--   and the marker of a run.
-- TerminalQuery: src/pty/terminalQueryResponder.ts. TerminalQuery/Reply holds the replies, and
--   TerminalQuery/Scanner the responder, one function per state. Chunks is about output in chunks,
--   Held and Unbounded compare the scanner with one that has no limits, Sequences says what whole
--   sequences are and what replies they get, and Answers, Bounds and Capabilities are about the
--   replies, the limits and the hex values.
-- RenderWait: src/renderWait/matcher.ts and limits.ts, and src/renderer/canonicalScreen.ts.
--   RenderWait/Quantifiers holds `hasNestedQuantifiers`, RenderWait/Matcher the preparation of a
--   condition and RenderWait/Snapshot its match. Syntax says what a regular expression is and how
--   it is written, Passing, PassingQuantifiers and Nested compare the check with that syntax, and
--   Meets and Matched are about a condition from its preparation to a match. `RegExp` is a parameter:
--   its constructor without flags, `exec`, and whether it is global or sticky.
-- Prelude: the library's names passed on, the Boolean tests and lists over native numbers
--   (Prelude/Tests, Prelude/Lists), results (Prelude/Fallible), text as UTF-16 code units
--   (Prelude/CodeUnits), and its parts (Prelude/Splitting).
--
-- Bounds. Numbers are exact: counts, sizes and positions are natural numbers, below the 2 ^ 53 up
-- to which a JavaScript number is exact, since a log has at most 50 MiB. The one machine operation
-- is the `>>> 1` of the binary search, whose sum is taken modulo 2 ^ 32; a log has fewer than
-- 2 ^ 31 events. A measured time is an exact fraction, where the source divides in floating point.
--
-- Fuel. A `while` loop is a recursion on fuel, and out of fuel is a failure of its own
-- (`out_of_fuel`), which no code of the source gives; the walk of the diff, which cannot fail,
-- would then give no further entries. The binary search is given one round more
-- than the log has events, of which it needs the logarithm; the loop over slices one more than the
-- log has events, since a round passes one event at least; the scan and the stripping of a buffer
-- one more than its length, since a round takes a character at least; the walk of the diff one
-- more than the lines of both screens. The loop that draws a sentinel ends with the tokens that it
-- is given. A loop with a fixed count is a recursion on the rounds that are left.
--
-- Not modelled. The platform: files, sockets, processes, clocks, JSON, promises beyond the queue
-- of writes, and the native terminal. A throw carries its message or a constructor, never a stack,
-- and where a throw ends a scan, a replay or the registration of a run the state that it leaves is
-- not followed. The parts of the repository that mostly call libraries or the platform are left
-- out: the command line, the dashboard's view, the browser renderer, the exporters, the storage of
-- manifests and artifacts, the evaluations and the tools. Of the parts with logic of their own, the
-- parser of batch plans and the key encoder are not modelled either.
mod Prelude
pub mod Session
pub mod EventLog
pub mod Replay
pub mod Batch
pub mod LineDiff
pub mod RunCompletion
pub mod Coordinator
pub mod TerminalQuery
pub mod RenderWait
