-- ===== src/Session/State.antt =====
-- src/host/sessionState.ts: the host's record of one session. A method returns the new record, or
-- the message of the invariant that fails; it writes no field before its last check. The time that
-- `touch` reads is an argument of each method.
use agent_tty.Prelude.{
  Bool, true, false, ◌&&◌, ◌||◌, Option, none, some, is_none, is_some, List, String, Result, ok,
  err, ◌>>=◌, ◌>>◌, invariant,
}
use agent_tty.Session.Number.{Number, is_integer, is_positive_integer}
use agent_tty.Session.Status.{
  SessionStatus, running, exiting, exited, failed, destroying, destroyed,
}

-- SessionRecordSchema, less the fields that no method reads or writes and no theorem needs.
pub record SessionRecord : Type 0 where
  pub session_id : String
  pub command : List String
  pub status : SessionStatus
  pub updated_at : String
  pub cols : Number
  pub rows : Number
  pub child_pid : Option Number
  pub exit_code : Option Number
  pub exit_signal : Option String
  pub failure_reason : Option String
  pub failure_origin : Option String

abbrev is_running : SessionStatus → Bool
is_running running = true
is_running _ = false

abbrev is_exiting : SessionStatus → Bool
is_exiting exiting = true
is_exiting _ = false

abbrev is_failed : SessionStatus → Bool
is_failed failed = true
is_failed _ = false

abbrev is_destroying : SessionStatus → Bool
is_destroying destroying = true
is_destroying _ = false

abbrev is_not_destroying : SessionStatus → Bool
is_not_destroying destroying = false
is_not_destroying _ = true

abbrev is_not_destroyed : SessionStatus → Bool
is_not_destroyed destroyed = false
is_not_destroyed _ = true

-- `['running', 'exited', 'failed'].includes(status)`
abbrev pub is_destroy_requestable : SessionStatus → Bool
is_destroy_requestable running = true
is_destroy_requestable exited = true
is_destroy_requestable failed = true
is_destroy_requestable _ = false

-- `code === null || Number.isInteger(code)`
abbrev is_integer_or_null : Option Number → Bool
is_integer_or_null none = true
is_integer_or_null (some n) = is_integer n

abbrev touch : String → SessionRecord → SessionRecord
touch now r = record r { updated_at = now }

unfoldable pub set_child_pid : String → Number → SessionRecord → Result String SessionRecord
set_child_pid now pid r = do
  invariant (is_running r.status) "Cannot set child PID unless session is running"
  invariant (is_none r.child_pid) "Child PID has already been set"
  invariant (is_positive_integer pid) "Child PID must be a positive integer"
  ok (touch now (record r { child_pid = some pid }))

unfoldable pub set_dimensions :
    String → Number → Number → SessionRecord → Result String SessionRecord
set_dimensions now cols rows r = do
  invariant (is_running r.status) "Cannot set dimensions unless session is running"
  invariant (is_positive_integer cols) "Columns must be a positive integer"
  invariant (is_positive_integer rows) "Rows must be a positive integer"
  ok (touch now (record r { cols = cols; rows = rows }))

unfoldable pub set_failure_origin : String → String → SessionRecord → Result String SessionRecord
set_failure_origin now origin r = do
  invariant (is_failed r.status) "Cannot set failureOrigin on this session"
  invariant (is_some r.failure_reason) "Cannot set failureOrigin without failureReason"
  ok (touch now (record r { failure_origin = some origin }))

unfoldable pub request_destroy : String → SessionRecord → Result String SessionRecord
request_destroy now r = do
  invariant (is_not_destroyed r.status) "Cannot destroy an already destroyed session"
  invariant (is_not_destroying r.status) "Session is already being destroyed"
  invariant (is_destroy_requestable r.status) "Cannot request destroy in current state"
  ok (touch now (record r { status = destroying }))

pub record ExitInfo : Type 0 where
  pub exit_code : Option Number
  pub exit_signal : Option String

-- The block under `if (exitInfo !== undefined)`. An exit signal is a string or null by its type.
abbrev write_exit_info : Option ExitInfo → SessionRecord → Result String SessionRecord
write_exit_info none r = ok r
write_exit_info (some info) r = do
  invariant (is_integer_or_null info.exit_code) "Exit code must be an integer or null"
  ok (record r { exit_code = info.exit_code; exit_signal = info.exit_signal })

unfoldable pub record_destroyed :
    String → Option ExitInfo → SessionRecord → Result String SessionRecord
record_destroyed now info r = do
  invariant (is_destroying r.status) "Cannot record destroyed unless session is destroying"
  written ← write_exit_info info r
  ok (touch now (record written { status = destroyed }))

unfoldable pub record_exit :
    String → Option Number → Option String → SessionRecord → Result String SessionRecord
record_exit now code signal r = do
  invariant (is_running r.status || is_exiting r.status)
      "Cannot record exit after session has exited"
  invariant (is_none r.exit_code && is_none r.exit_signal) "Session exit has already been recorded"
  invariant (is_integer_or_null code) "Exit code must be an integer or null"
  ok (touch now (record r { exit_code = code; exit_signal = signal; status = exited }))

-- A call of a method of `SessionState`, with its arguments.
pub data Call : Type 0 where
  set_child_pid_call : Number → Call
  set_dimensions_call : Number → Number → Call
  set_failure_origin_call : String → Call
  request_destroy_call : Call
  record_destroyed_call : Option ExitInfo → Call
  record_exit_call : Option Number → Option String → Call

unfoldable pub perform : String → Call → SessionRecord → Result String SessionRecord
unfolding set_child_pid set_dimensions set_failure_origin request_destroy record_destroyed
    record_exit
perform now (set_child_pid_call pid) r = set_child_pid now pid r
perform now (set_dimensions_call cols rows) r = set_dimensions now cols rows r
perform now (set_failure_origin_call origin) r = set_failure_origin now origin r
perform now request_destroy_call r = request_destroy now r
perform now (record_destroyed_call info) r = record_destroyed now info r
perform now (record_exit_call code signal) r = record_exit now code signal r

-- A throw leaves the record as it was, and the host goes on with it.
abbrev pub settle : SessionRecord → Result String SessionRecord → SessionRecord
settle r (ok next) = next
settle r (err message) = r

-- The calls that the host makes in turn, each with the time at which it is made.
unfoldable pub perform_all : List (String × Call) → SessionRecord → SessionRecord
perform_all List.[] r = r
perform_all (List.◌∷◌ (now, call) calls) r = perform_all calls (settle r (perform now call r))
