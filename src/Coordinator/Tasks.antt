-- ===== src/Coordinator/Tasks.antt =====
-- src/host/runCompletionCoordinator.ts: the ingestion of terminal output. What stands between two
-- awaits is a task, and a task may leave others to come before the rest. The appender is a parameter
-- over a world that each call may change; it may throw, and what it gives is known in the step that
-- calls it.
use agent_tty.Prelude.{
  ℕ, Option, none, some, List, [], ◌∷◌, ◌++◌, Text, if◌then◌else◌, Result, ok, err, ◌>>=◌, Failure,
  assertion,
}
use agent_tty.RunCompletion.Sentinel.{is_non_empty}
use agent_tty.RunCompletion.Scanner.{SentinelPiece, output, run_complete, feed, flush}
use agent_tty.RunCompletion.Sanitizer.{Sanitizer}
use agent_tty.RunCompletion.Strip.{feed_echo, flush_echo, deregister_echo}
use agent_tty.Coordinator.State.{
  ActiveRunCompletion, Coordinator, get_completion, delete_completion,
  resolve_run_completion_waiter, reject_run_completion_waiter,
}

-- What an ingestion may throw: a failure of its own, or an error of the appender.
pub data Thrown (E : Type 0) : Type 0 where
  failed : Failure → Thrown E
  append_failed : E → Thrown E

-- `RunCompletionEventAppender`
pub record EventAppender (E W : Type 0) : Type 0 where
  pub append_output : Text → W → Result E (Unit {0}) × W
  pub append_run_complete : (marker : Text) (input_run_seq : ℕ) → W → Result E ℕ × W

pub data Task : Type 0 where
  append_piece : SentinelPiece → Task
  append_completion : (marker : Text) (input_run_seq : ℕ) → Task
  finish_completion : (marker : Text) (seq : ℕ) → Task
  append_flushed_echo : Task

-- What a task gives: the tasks that it leaves, or what it throws, and the state and world after it.
pub record Outcome (E W : Type 0) : Type 0 where
  pub result : Result (Thrown E) (List Task)
  pub coordinator : Coordinator
  pub world : W

abbrev pub outcome : {E W : Type 0} → Result (Thrown E) (List Task) → Coordinator → W → Outcome E W
outcome r c w = record { result = r; coordinator = c; world = w }

-- The completion of `#appendSentinelPieces` that is active, with its two checks.
abbrev find_active : Option ActiveRunCompletion → Result Failure ActiveRunCompletion
find_active none = err (assertion "run-completion sentinel must correspond to an active run marker")
find_active (some a) =
    if is_non_empty a.sentinel
    then ok a
    else err (assertion "active run-completion sentinel must be non-empty")

-- An `await` of the appender, and the tasks behind it.
abbrev pub after_append :
    {E : Type 0} → List Task → Result E (Unit {0}) → Result (Thrown E) (List Task)
after_append tasks (ok _) = ok tasks
after_append tasks (err e) = err (append_failed e)

module _ {E W : Type 0} (appender : EventAppender E W) where
  -- Output is appended where there is any.
  unfoldable pub append_text : List Task → Text → Coordinator → W → Outcome E W
  append_text tasks [] c w = outcome (ok tasks) c w
  append_text tasks (x ∷ text) c w =
      let (r, w') = appender.append_output (x ∷ text) w in outcome (after_append tasks r) c w'

  -- What the sanitizer gives is kept in the state, and its output appended.
  unfoldable pub append_sanitized :
      List Task → Result Failure (Sanitizer × Text) → Coordinator → W → Outcome E W
  unfolding append_text
  append_sanitized tasks (err e) c w = outcome (err (failed e)) c w
  append_sanitized tasks (ok (sanitizer, text)) c w =
      append_text tasks text (record c { postamble_echo_sanitizer = sanitizer }) w

  -- What is thrown once the wait is rejected; the rejection checks the marker.
  abbrev pub rethrow : Thrown E → Result Failure Coordinator → Coordinator → W → Outcome E W
  rethrow e (ok c') c w = outcome (err e) c' w
  rethrow e (err failure) c w = outcome (err (failed failure)) c w

  -- The `catch` of `#appendSentinelPieces`: the wait is rejected, and the error thrown again.
  abbrev pub catch_and_reject : Text → Result (Thrown E) (List Task) → Coordinator → W → Outcome E W
  catch_and_reject marker (ok tasks) c w = outcome (ok tasks) c w
  catch_and_reject marker (err e) c w = rethrow e (reject_run_completion_waiter marker c) c w

  abbrev pub caught : Text → Outcome E W → Outcome E W
  caught marker o = catch_and_reject marker o.result o.coordinator o.world

  unfoldable pub start_completion :
      Text → Result Failure ActiveRunCompletion → Coordinator → W → Outcome E W
  unfolding append_sanitized
  start_completion marker (err e) c w = outcome (err (failed e)) c w
  start_completion marker (ok a) c w = caught marker (
      append_sanitized (append_completion marker a.input_run_seq ∷ [])
        (deregister_echo marker c.postamble_echo_sanitizer) c w)

  -- What follows `appendRunComplete`, where it returns.
  abbrev pub finishing : Text → Result E ℕ → Result (Thrown E) (List Task)
  finishing marker (err e) = err (append_failed e)
  finishing marker (ok seq) = ok (finish_completion marker seq ∷ [])

  -- The completion is deleted, and its wait resolved; the `catch` stands around this too.
  abbrev pub resolved : Text → Result Failure Coordinator → Coordinator → W → Outcome E W
  resolved marker (ok c') c w = outcome (ok []) c' w
  resolved marker (err failure) c w = catch_and_reject marker (err (failed failure)) c w

  abbrev pub delete_found : Text → ℕ → Option ActiveRunCompletion → Coordinator → W → Outcome E W
  delete_found marker seq none c w =
      catch_and_reject marker
        (err (failed (assertion "active run completion must be deleted after append succeeds"))) c w
  delete_found marker seq (some a) c w =
      let c' = record c {
        active_run_completions = delete_completion marker c.active_run_completions;
      } in
      resolved marker (resolve_run_completion_waiter marker seq c') c' w

  -- `#appendSentinelPieces` on one piece, from one await to the next, and
  -- `#appendFlushedPostambleEchoOutput`
  unfoldable pub run_task : Task → Coordinator → W → Outcome E W
  unfolding append_sanitized start_completion
  run_task (append_piece (output text)) c w =
      append_sanitized [] (feed_echo text c.postamble_echo_sanitizer) c w
  run_task (append_piece (run_complete marker)) c w =
      start_completion marker (find_active (get_completion marker c.active_run_completions)) c w
  run_task (append_completion marker input_run_seq) c w =
      let (r, w') = appender.append_run_complete marker input_run_seq w in
      catch_and_reject marker (finishing marker r) c w'
  run_task (finish_completion marker seq) c w =
      delete_found marker seq (get_completion marker c.active_run_completions) c w
  run_task append_flushed_echo c w = append_sanitized [] (flush_echo c.postamble_echo_sanitizer) c w

unfoldable pub piece_tasks : List SentinelPiece → List Task
piece_tasks [] = []
piece_tasks (piece ∷ pieces) = append_piece piece ∷ piece_tasks pieces

-- `ingestPtyData`, up to its first await: the state, and the tasks
unfoldable pub ingest_pty_data : Text → Coordinator → Result Failure (Coordinator × List Task)
unfolding piece_tasks
ingest_pty_data text c = do
  (scanner, pieces) ← feed text c.sentinel_scanner
  ok (record c { sentinel_scanner = scanner }, piece_tasks pieces)

-- `flushPtyDataOnExit`
unfoldable pub flush_pty_data_on_exit : Coordinator → Result Failure (Coordinator × List Task)
unfolding piece_tasks
flush_pty_data_on_exit c = do
  (scanner, pieces) ← flush c.sentinel_scanner
  ok (record c { sentinel_scanner = scanner }, piece_tasks pieces ++ append_flushed_echo ∷ [])
