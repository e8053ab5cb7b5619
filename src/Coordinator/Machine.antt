-- ===== src/Coordinator/Machine.antt =====
-- src/host/runCompletionCoordinator.ts under the host's event loop: between two awaits of an
-- ingestion a run may be registered, a wait may end, and the session may exit. Ingestions are serial,
-- as the class demands of its callers.
use agent_tty.Prelude.{ℕ, ◌≡◌, false, All, text_eq, List, [], ◌∷◌, ◌++◌, Text, ok, err}
use agent_tty.Coordinator.State.{
  Coordinator, RegisteredRun, timed_out, aborted, register_waited_run, forget_waiter,
  reset_for_exit,
}
use agent_tty.Coordinator.Tasks.{
  Thrown, EventAppender, Task, run_task, ingest_pty_data, flush_pty_data_on_exit,
}

-- A coordinator with the tasks of the ingestion that runs, and the world of the appender.
pub record Host (W : Type 0) : Type 0 where
  pub coordinator : Coordinator
  pub tasks : List Task
  pub world : W

-- The marker was given to no wait before: `crypto.randomUUID` gives each identifier once.
abbrev pub IsUnused : Text → Coordinator → Type 0
IsUnused marker c = All (λ p. text_eq p.0 marker ≡ false) c.settled

module _ {E W : Type 0} (appender : EventAppender E W) (utf8 : Text → List ℕ) where
  pub data Step : Host W → Host W → Type 0 where
    registers :
        {h : Host W} {c : Coordinator} {run : RegisteredRun} (tokens : List Text) (marker : Text)
        (input_run_seq : ℕ)
        → register_waited_run utf8 tokens marker input_run_seq h.coordinator ≡ ok (c, run)
        → IsUnused marker h.coordinator
        → Step h (record h { coordinator = c })
    ingests :
        {h : Host W} {c : Coordinator} {tasks : List Task} (text : Text)
        → h.tasks ≡ []
        → ingest_pty_data text h.coordinator ≡ ok (c, tasks)
        → Step h (record h { coordinator = c; tasks = tasks })
    flushes :
        {h : Host W} {c : Coordinator} {tasks : List Task}
        → h.tasks ≡ []
        → flush_pty_data_on_exit h.coordinator ≡ ok (c, tasks)
        → Step h (record h { coordinator = c; tasks = tasks })
    runs :
        {h : Host W} {more : List Task} (task : Task) (rest : List Task)
        → h.tasks ≡ task ∷ rest
        → (run_task appender task h.coordinator h.world).result ≡ ok more
        → Step h (record {
          coordinator = (run_task appender task h.coordinator h.world).coordinator;
          tasks = more ++ rest;
          world = (run_task appender task h.coordinator h.world).world;
        })
    -- The ingestion rejects, and its other tasks are not run.
    rejects :
        {h : Host W} {error : Thrown E} (task : Task) (rest : List Task)
        → h.tasks ≡ task ∷ rest
        → (run_task appender task h.coordinator h.world).result ≡ err error
        → Step h (record {
          coordinator = (run_task appender task h.coordinator h.world).coordinator;
          tasks = [];
          world = (run_task appender task h.coordinator h.world).world;
        })
    times_out :
        {h : Host W} (marker : Text)
        → Step h (record h { coordinator = forget_waiter marker timed_out h.coordinator })
    aborts :
        {h : Host W} (marker : Text)
        → Step h (record h { coordinator = forget_waiter marker aborted h.coordinator })
    exits : {h : Host W} → Step h (record h { coordinator = reset_for_exit h.coordinator })

  pub data Reach (h : Host W) : Host W → Type 0 where
    here : Reach h h
    next : {h' h'' : Host W} → Reach h h' → Step h' h'' → Reach h h''
