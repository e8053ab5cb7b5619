-- ===== src/Session/Lifecycle.antt =====
-- The diagram of src/host/sessionState.ts, and what every sequence of its calls keeps.
use agent_tty.Prelude.{
  Bool, true, false, ◌||◌, ◌≡◌, refl, arith, Option, none, some, List, [], ◌∷◌, String, Result, ok,
  err, accepted, ◌>>=◌, not,
}
use agent_tty.Session.Number.{Number, is_integer, is_positive_integer}
use agent_tty.Session.Status.{
  SessionStatus, running, exiting, exited, failed, destroying, destroyed,
  is_live_host_eligible_session_status, is_commandable_session_status,
  is_offline_replay_eligible_session_status, is_destroyed_session_status,
}
use agent_tty.Session.State.{
  SessionRecord, Call, set_child_pid_call, perform, perform_all, settle, request_destroy,
  record_destroyed,
}

-- The steps of the lifecycle that the session's own host takes.
infix 40 ◌⟶◌
pub data ◌⟶◌ : SessionStatus → SessionStatus → Type 0 where
  update : running ⟶ running
  annotate : failed ⟶ failed
  exit : running ⟶ exited
  exit_late : exiting ⟶ exited
  destroy_running : running ⟶ destroying
  destroy_exited : exited ⟶ destroying
  destroy_failed : failed ⟶ destroying
  finish : destroying ⟶ destroyed

ruleset edges =
    (update, annotate, exit, exit_late, destroy_running, destroy_exited, destroy_failed, finish)

-- Every call that is accepted follows an edge of the diagram.
pub perform-⟶ :
    (now : String) (c : Call) (r t : SessionRecord) → perform now c r ≡ ok t → r.status ⟶ t.status
unfolding perform
perform-⟶ now (set_child_pid_call pid) r t h = grind (arith, edges)
perform-⟶ now _ r t h = grind (arith, edges)

abbrev pub is_exit_pending : SessionStatus → Bool
is_exit_pending running = true
is_exit_pending exiting = true
is_exit_pending _ = false

abbrev pub IsPositive : Option Number → Type 0
IsPositive none = Unit
IsPositive (some n) = is_positive_integer n ≡ true

abbrev pub IsInteger : Option Number → Type 0
IsInteger none = Unit
IsInteger (some n) = is_integer n ≡ true

-- What a session record holds between two calls.
pub record IsValid (r : SessionRecord) : Type 0 where
  pub cols_positive : is_positive_integer r.cols ≡ true
  pub rows_positive : is_positive_integer r.rows ≡ true
  pub pid_positive : IsPositive r.child_pid
  pub exit_code_integer : IsInteger r.exit_code
  pub exit_unrecorded :
      is_exit_pending r.status ≡ true → (r.exit_code ≡ none) × (r.exit_signal ≡ none)

perform-IsValid :
    (now : String) (c : Call) (r t : SessionRecord) → IsValid r → perform now c r ≡ ok t → IsValid t
unfolding perform
perform-IsValid now (set_child_pid_call pid) r t v h = ground arith
perform-IsValid now _ r t v h = ground arith

settle-IsValid :
    (r : SessionRecord) (o : Result String SessionRecord)
    → IsValid r
    → ((t : SessionRecord) → o ≡ ok t → IsValid t)
    → IsValid (settle r o)
settle-IsValid r (ok t) v next = next t refl
settle-IsValid r (err message) v next = v

-- A valid record stays valid under any sequence of calls, accepted or refused.
pub perform_all-IsValid :
    (calls : List (String × Call)) (r : SessionRecord) → IsValid r → IsValid (perform_all calls r)
unfolding perform_all
perform_all-IsValid [] r v = v
perform_all-IsValid ((now, c) ∷ calls) r v =
    perform_all-IsValid calls _
      (settle-IsValid r (perform now c r) v (λ t. perform-IsValid now c r t v))

abbrev implies : Bool → Bool → Bool
implies a b = not a || b

-- What `t`, a later status than `s`, has not gained and has not lost.
abbrev pub OnlyWindsDown : SessionStatus → SessionStatus → Type 0
OnlyWindsDown s t =
    (implies (is_live_host_eligible_session_status t) (is_live_host_eligible_session_status s)
      ≡ true)
    × (implies (is_commandable_session_status t) (is_commandable_session_status s) ≡ true)
    × (implies (is_offline_replay_eligible_session_status s)
          (is_offline_replay_eligible_session_status t)
        ≡ true)
    × (implies (is_destroyed_session_status s) (is_destroyed_session_status t) ≡ true)

OnlyWindsDown-refl : (s : SessionStatus) → OnlyWindsDown s s
OnlyWindsDown-refl s = ground arith

OnlyWindsDown-trans :
    (s t u : SessionStatus) → OnlyWindsDown s t → OnlyWindsDown t u → OnlyWindsDown s u
OnlyWindsDown-trans s t u h k = ground arith

⟶-OnlyWindsDown : {s t : SessionStatus} → s ⟶ t → OnlyWindsDown s t
unfolding is_live_host_eligible_session_status is_commandable_session_status
    is_offline_replay_eligible_session_status is_destroyed_session_status
⟶-OnlyWindsDown update = ground arith
⟶-OnlyWindsDown _ = ground arith

settle-OnlyWindsDown :
    (r : SessionRecord) (o : Result String SessionRecord)
    → ((t : SessionRecord) → o ≡ ok t → r.status ⟶ t.status)
    → OnlyWindsDown r.status (settle r o).status
settle-OnlyWindsDown r (ok t) next = ⟶-OnlyWindsDown (next t refl)
settle-OnlyWindsDown r (err message) next = OnlyWindsDown-refl r.status

-- Whatever calls are made on a record: a session that is live-host eligible (commandable) after
-- them was so before them, and one that was offline-replay eligible (destroyed) still is.
pub perform_all-OnlyWindsDown :
    (calls : List (String × Call)) (r : SessionRecord)
    → OnlyWindsDown r.status (perform_all calls r).status
unfolding perform_all
perform_all-OnlyWindsDown [] r = OnlyWindsDown-refl r.status
perform_all-OnlyWindsDown ((now, c) ∷ calls) r =
    OnlyWindsDown-trans _ _ _ (settle-OnlyWindsDown r (perform now c r) (perform-⟶ now c r))
      (perform_all-OnlyWindsDown calls (settle r (perform now c r)))

perform_destroyed :
    (now : String) (c : Call) (r : SessionRecord)
    → r.status ≡ destroyed
    → settle r (perform now c r) ≡ r
unfolding perform
perform_destroyed now (set_child_pid_call pid) r h = ground arith
perform_destroyed now _ r h = ground arith

-- A destroyed session refuses every call, so no sequence of calls changes its record.
pub destroyed_absorbs :
    (calls : List (String × Call)) (r : SessionRecord)
    → r.status ≡ destroyed
    → perform_all calls r ≡ r
unfolding perform_all
destroyed_absorbs [] r h = refl
destroyed_absorbs ((now, c) ∷ calls) r h =
    rw (perform_destroyed now c r h) (destroyed_absorbs calls r h)

-- `requestDestroy` followed by `recordDestroyed` with no exit info succeeds exactly in `running`,
-- `exited` and `failed`, and then changes nothing but the status, to `destroyed`, and the time.
pub destroy_completes :
    (asked done : String) (r : SessionRecord)
    → accepted (request_destroy asked r >>= record_destroyed done none) ≡ (elim r.status [
      | running ↦ some (record r { status = destroyed; updated_at = done })
      | exiting ↦ none
      | exited ↦ some (record r { status = destroyed; updated_at = done })
      | failed ↦ some (record r { status = destroyed; updated_at = done })
      | destroying ↦ none
      | destroyed ↦ none
    ])
unfolding request_destroy record_destroyed
destroy_completes asked done r = ground arith
