-- ===== src/Coordinator/State.antt =====
-- src/host/runCompletionCoordinator.ts: the state of `RunCompletionCoordinator`, and what registers,
-- settles and forgets a waited run. A map is the list of its entries in insertion order. A throw of
-- `registerWaitedRun` ends it, and the state that it leaves is not followed.
use agent_tty.Prelude.{
  ℕ, Bool, true, false, not, ◌||◌, Option, none, some, List, [], ◌∷◌, ◌++◌, Text, text_eq, length,
  ◌==◌, if◌then◌else◌, Result, ok, err, ◌>>=◌, ◌>>◌, invariant, Failure, assertion, out_of_fuel,
}
use agent_tty.RunCompletion.Sentinel.{
  assert_run_marker, assert_non_empty_string, build_run_complete_signal_sentinel,
}
use agent_tty.RunCompletion.Scanner.{Scanner, new_scanner, register}
use agent_tty.RunCompletion.Sanitizer.{Sanitizer, new_sanitizer}
use agent_tty.RunCompletion.Strip.{register_echo}
use agent_tty.Coordinator.Postamble.{build_run_complete_postamble}

pub record ActiveRunCompletion : Type 0 where
  pub marker : Text
  pub input_run_seq : ℕ
  pub sentinel : Text

-- How a wait ends: `RunCompletionWaitResult` with the timeout, an abort, and a rejection.
pub data WaitOutcome : Type 0 where
  completed : (seq : ℕ) → WaitOutcome
  exited timed_out aborted rejected : WaitOutcome

-- `settled` is how the waits ended, oldest first: by their promise, or by their caller that gives up.
pub record Coordinator : Type 0 where
  pub sentinel_scanner : Scanner
  pub postamble_echo_sanitizer : Sanitizer
  pub active_run_completions : List ActiveRunCompletion
  pub run_completion_waiters : List Text
  pub settled : List (Text × WaitOutcome)

abbrev pub new_coordinator : Coordinator
new_coordinator = record {
  sentinel_scanner = new_scanner;
  postamble_echo_sanitizer = new_sanitizer;
  active_run_completions = [];
  run_completion_waiters = [];
  settled = [];
}

-- `#activeRunCompletions.get(marker)`
unfoldable pub get_completion : Text → List ActiveRunCompletion → Option ActiveRunCompletion
get_completion marker [] = none
get_completion marker (a ∷ active) =
    let rest = get_completion marker active in if text_eq a.marker marker then some a else rest

-- `#activeRunCompletions.delete(marker)`
unfoldable pub delete_completion : Text → List ActiveRunCompletion → List ActiveRunCompletion
delete_completion marker [] = []
delete_completion marker (a ∷ active) =
    let rest = delete_completion marker active in
    if text_eq a.marker marker then active else a ∷ rest

-- `#hasActiveSentinel`, behind its check
unfoldable pub is_active_sentinel : Text → List ActiveRunCompletion → Bool
is_active_sentinel sentinel [] = false
is_active_sentinel sentinel (a ∷ active) =
    text_eq a.sentinel sentinel || is_active_sentinel sentinel active

unfoldable pub has_active_sentinel : Text → Coordinator → Result Failure Bool
unfolding is_active_sentinel
has_active_sentinel sentinel c =
    assert_non_empty_string sentinel >> ok (is_active_sentinel sentinel c.active_run_completions)

-- `generateRunCompleteSignalSentinel`, on the random token that it draws
abbrev pub generate_run_complete_signal_sentinel : Text → Result Failure Text
generate_run_complete_signal_sentinel token = do
  invariant (length token == 6)
      (assertion "run-completion signal token must encode to six base64url characters")
  build_run_complete_signal_sentinel token

-- The sentinel of a new run. The random tokens are given, in the order in which they come.
unfoldable pub draw_sentinel : List Text → Coordinator → Result Failure Text
unfolding has_active_sentinel
draw_sentinel [] c = err out_of_fuel
draw_sentinel (token ∷ tokens) c = do
  sentinel ← generate_run_complete_signal_sentinel token
  taken ← has_active_sentinel sentinel c
  elim taken [ true ↦ draw_sentinel tokens c | false ↦ ok sentinel ]

-- `#runCompletionWaiters.has(marker)` and `.delete(marker)`
unfoldable pub is_waiting : Text → List Text → Bool
is_waiting marker [] = false
is_waiting marker (x ∷ waiters) = text_eq x marker || is_waiting marker waiters

unfoldable pub delete_waiter : Text → List Text → List Text
delete_waiter marker [] = []
delete_waiter marker (x ∷ waiters) =
    let rest = delete_waiter marker waiters in if text_eq x marker then waiters else x ∷ rest

abbrev pub is_missing : Option ActiveRunCompletion → Bool
is_missing none = true
is_missing (some a) = false

-- `#subscribeRunCompletion`
unfoldable pub subscribe_run_completion : Text → Coordinator → Result Failure Coordinator
subscribe_run_completion marker c = do
  assert_run_marker marker
  invariant (not (is_waiting marker c.run_completion_waiters))
      (assertion "run completion waiter must be unique per marker")
  ok (record c { run_completion_waiters = c.run_completion_waiters ++ marker ∷ [] })

pub record RegisteredRun : Type 0 where
  pub postamble : Text
  pub sentinel : Text

-- The new run, in the map of active runs, in the scanner and in the sanitizer.
abbrev pub enter_run : ActiveRunCompletion → Scanner → Sanitizer → Coordinator → Coordinator
enter_run run scanner sanitizer c = record c {
  sentinel_scanner = scanner;
  postamble_echo_sanitizer = sanitizer;
  active_run_completions = c.active_run_completions ++ run ∷ [];
}

-- `registerWaitedRun`; the wait that it returns is the waiter.
unfoldable pub register_waited_run :
    (Text → List ℕ)
    → List Text
    → Text
    → ℕ
    → Coordinator
    → Result Failure (Coordinator × RegisteredRun)
unfolding subscribe_run_completion
register_waited_run utf8 tokens marker input_run_seq c = do
  assert_run_marker marker
  invariant (is_missing (get_completion marker c.active_run_completions))
      (assertion "generated run marker must be unique among active completions")
  sentinel ← draw_sentinel tokens c
  postamble ← build_run_complete_postamble utf8 marker sentinel
  let run : ActiveRunCompletion = record {
    marker = marker;
    input_run_seq = input_run_seq;
    sentinel = sentinel;
  }
  scanner ← register marker sentinel c.sentinel_scanner
  sanitizer ← register_echo marker postamble c.postamble_echo_sanitizer
  c' ← subscribe_run_completion marker (enter_run run scanner sanitizer c)
  ok (c', record { postamble = postamble; sentinel = sentinel })

-- The promise of a waiting marker is given an outcome, once.
unfoldable pub settle_waiter : Text → WaitOutcome → Coordinator → Coordinator
settle_waiter marker outcome c =
    if is_waiting marker c.run_completion_waiters
    then record c {
      run_completion_waiters = delete_waiter marker c.run_completion_waiters;
      settled = c.settled ++ (marker, outcome) ∷ [];
    }
    else c

-- `#resolveRunCompletionWaiter`
unfoldable pub resolve_run_completion_waiter : Text → ℕ → Coordinator → Result Failure Coordinator
unfolding settle_waiter
resolve_run_completion_waiter marker seq c =
    assert_run_marker marker >> ok (settle_waiter marker (completed seq) c)

-- `#rejectRunCompletionWaiter`
unfoldable pub reject_run_completion_waiter : Text → Coordinator → Result Failure Coordinator
unfolding settle_waiter
reject_run_completion_waiter marker c =
    assert_run_marker marker >> ok (settle_waiter marker rejected c)

-- `forgetWaiter` of `#waitForRunCompletion`, and the result that the caller gets then. A wait that
-- has its result already is not ended again.
unfoldable pub forget_waiter : Text → WaitOutcome → Coordinator → Coordinator
unfolding settle_waiter
forget_waiter marker outcome c = settle_waiter marker outcome c

unfoldable pub all_exited : List Text → List (Text × WaitOutcome)
all_exited [] = []
all_exited (x ∷ waiters) = (x, exited) ∷ all_exited waiters

-- `resetForExit`
unfoldable pub reset_for_exit : Coordinator → Coordinator
unfolding all_exited
reset_for_exit c = record {
  sentinel_scanner = new_scanner;
  postamble_echo_sanitizer = new_sanitizer;
  active_run_completions = [];
  run_completion_waiters = [];
  settled = c.settled ++ all_exited c.run_completion_waiters;
}
