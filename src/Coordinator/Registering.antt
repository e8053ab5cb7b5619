-- ===== src/Coordinator/Registering.antt =====
-- src/host/runCompletionCoordinator.ts: what `registerWaitedRun` makes of the waits.
use agent_tty.Prelude.{
  Result-cases, ℕ, ◌+◌, ◌≤◌, ◌≡◌, refl, sym, ap, ◌∙◌, false, List, [], ◌∷◌, ◌++◌, Text, text_eq,
  text_eq→eq, chain_passes, invariant, assertion, ok, arith, Bool-cases, ◌⊎◌, inl, inr,
}
use agent_tty.Coordinator.State.{
  Coordinator, RegisteredRun, WaitOutcome, is_waiting, is_missing, get_completion, draw_sentinel,
  enter_run, register_waited_run, subscribe_run_completion, forget_waiter, ActiveRunCompletion,
}
use agent_tty.Coordinator.Tasks.{Task, ingest_pty_data, flush_pty_data_on_exit}
use agent_tty.RunCompletion.Sentinel.{assert_run_marker}
use agent_tty.RunCompletion.Scanner.{register, feed, flush}
use agent_tty.RunCompletion.Strip.{register_echo}
use agent_tty.Coordinator.Postamble.{build_run_complete_postamble}
use agent_tty.Coordinator.Machine.{IsUnused}
use agent_tty.Coordinator.Counting.{
  SameWaits, occurrences, occurrences-append, outcomes_of, settle_waiter-waits_of, waits_of,
}
use agent_tty.Coordinator.TaskWaits.{occurrences-is_waiting, outcomes_of-IsUnused}

-- What a registration changes of the waits.
pub record Registered (marker : Text) (c c' : Coordinator) : Type 0 where
  free : is_waiting marker c.run_completion_waiters ≡ false
  waiters : c'.run_completion_waiters ≡ c.run_completion_waiters ++ marker ∷ []
  settled : c'.settled ≡ c.settled

subscribe_lem :
    (marker : Text) (c c' : Coordinator)
    → subscribe_run_completion marker c ≡ ok c'
    → Registered marker c c'
unfolding subscribe_run_completion
subscribe_lem marker c c' h = elim (Bool-cases (is_waiting marker c.run_completion_waiters)) [
  | inl taken ↦ absurd (ground (arith, h, taken, Result-cases (assert_run_marker marker)))
  | inr free ↦ record {
    free = free;
    waiters = ground (arith, h, free);
    settled = ground (arith, h, free);
  }
]

pub register_waited_run-Registered :
    (utf8 : Text → List ℕ) (tokens : List Text) (marker : Text) (seq : ℕ) (c c' : Coordinator)
    (run : RegisteredRun)
    → register_waited_run utf8 tokens marker seq c ≡ ok (c', run)
    → Registered marker c c'
unfolding register_waited_run
register_waited_run-Registered utf8 tokens marker seq c c' run h =
    let (_, _, h1) = chain_passes (assert_run_marker marker) _ h in
    let (_, _, h2) =
      chain_passes
        (invariant (is_missing (get_completion marker c.active_run_completions))
          (assertion "generated run marker must be unique among active completions"))
        _ h1 in
    let (sentinel, _, h3) = chain_passes (draw_sentinel tokens c) _ h2 in
    let (postamble, _, h4) =
      chain_passes (build_run_complete_postamble utf8 marker sentinel) _ h3 in
    let (scanner, _, h5) = chain_passes (register marker sentinel c.sentinel_scanner) _ h4 in
    let (sanitizer, _, h6) =
      chain_passes (register_echo marker postamble c.postamble_echo_sanitizer) _ h5 in
    let run' : ActiveRunCompletion = record {
      marker = marker;
      input_run_seq = seq;
      sentinel = sentinel;
    } in
    let entered = enter_run run' scanner sanitizer c in
    let (subscribed, e, h7) = chain_passes (subscribe_run_completion marker entered) _ h6 in
    let same : subscribed ≡ c' = cc h7 in
    let added = subscribe_lem marker entered subscribed e in
    record {
      free = added.free;
      waiters = ap (λ x. x.run_completion_waiters) (sym same) ∙ added.waiters;
      settled = ap (λ x. x.settled) (sym same) ∙ added.settled;
    }

pub register_waited_run-waits_of :
    (marker other : Text) (c c' : Coordinator)
    → Registered marker c c'
    → waits_of other c' ≡ waits_of other c + occurrences other (marker ∷ [])
unfolding waits_of
register_waited_run-waits_of marker other c c' r = omega (
  arith,
  ap (occurrences other) r.waiters,
  ap (outcomes_of other) r.settled,
  occurrences-append other c.run_completion_waiters (marker ∷ []),
)

-- A coordinator that gave each wait one outcome at most.
abbrev pub IsSettledOnce : Coordinator → Type 0
IsSettledOnce c = (marker : Text) → waits_of marker c ≤ 1

pub unused_waits :
    (marker : Text) (c c' : Coordinator)
    → Registered marker c c'
    → IsUnused marker c
    → waits_of marker c ≡ 0
unfolding waits_of
unused_waits marker c c' r unused = omega (
  arith,
  occurrences-is_waiting marker c.run_completion_waiters r.free,
  outcomes_of-IsUnused marker c.settled unused,
)

pub occurrences_once :
    (marker other : Text)
    → (occurrences other (marker ∷ []) ≡ 0)
      ⊎ ((occurrences other (marker ∷ []) ≡ 1) × (marker ≡ other))
unfolding occurrences
occurrences_once marker other = elim (Bool-cases (text_eq marker other)) [
  | inl same ↦ inr (rw same refl, text_eq→eq marker other same)
  | inr differ ↦ inl (rw differ refl)
]

pub ingest-SameWaits :
    (text : Text) (c c' : Coordinator) (tasks : List Task)
    → ingest_pty_data text c ≡ ok (c', tasks)
    → SameWaits c c'
unfolding ingest_pty_data waits_of
ingest-SameWaits text c c' tasks h other =
    let ((scanner, pieces), _, h1) = chain_passes (feed text c.sentinel_scanner) _ h in
    let same : record c { sentinel_scanner = scanner } ≡ c' = cc h1 in
    ap (waits_of other) (sym same)

pub flush-SameWaits :
    (c c' : Coordinator) (tasks : List Task)
    → flush_pty_data_on_exit c ≡ ok (c', tasks)
    → SameWaits c c'
unfolding flush_pty_data_on_exit waits_of
flush-SameWaits c c' tasks h other =
    let ((scanner, pieces), _, h1) = chain_passes (flush c.sentinel_scanner) _ h in
    let same : record c { sentinel_scanner = scanner } ≡ c' = cc h1 in
    ap (waits_of other) (sym same)

pub forget_waiter-SameWaits :
    (marker : Text) (result : WaitOutcome) (c : Coordinator)
    → SameWaits c (forget_waiter marker result c)
unfolding forget_waiter
forget_waiter-SameWaits marker result c other = settle_waiter-waits_of marker result other c
