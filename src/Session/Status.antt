-- ===== src/Session/Status.antt =====
-- src/protocol/sessionStatusPolicy.ts: the truth table of the lifecycle classifications.
use agent_tty.Prelude.{Bool, true, false, not, ◌||◌, ◌≡◌, refl, String, Result, ok, ◌>>◌, invariant}
use mathlib.Core.Bool.{xor}

pub data SessionStatus : Type 0 where
  running exiting exited failed destroying destroyed : SessionStatus

pub record SessionStatusPolicy : Type 0 where
  pub active : Bool
  pub terminal : Bool
  pub commandable : Bool
  pub live_host_eligible : Bool
  pub offline_replay_eligible : Bool
  pub collectable : Bool
  pub is_destroyed : Bool

-- `SESSION_STATUS_POLICIES`, read by `getSessionStatusPolicy`. The status is of the enumeration, so
-- the `Object.hasOwn` check of the reader holds.
unfoldable pub get_session_status_policy : SessionStatus → SessionStatusPolicy
get_session_status_policy running = record {
  active = true;
  terminal = false;
  commandable = true;
  live_host_eligible = true;
  offline_replay_eligible = false;
  collectable = false;
  is_destroyed = false;
}
get_session_status_policy exiting = record {
  active = true;
  terminal = false;
  commandable = false;
  live_host_eligible = true;
  offline_replay_eligible = false;
  collectable = false;
  is_destroyed = false;
}
get_session_status_policy exited = record {
  active = false;
  terminal = true;
  commandable = false;
  live_host_eligible = false;
  offline_replay_eligible = true;
  collectable = true;
  is_destroyed = false;
}
get_session_status_policy failed = record {
  active = false;
  terminal = true;
  commandable = false;
  live_host_eligible = false;
  offline_replay_eligible = true;
  collectable = true;
  is_destroyed = false;
}
get_session_status_policy destroying = record {
  active = true;
  terminal = false;
  commandable = false;
  live_host_eligible = false;
  offline_replay_eligible = true;
  collectable = false;
  is_destroyed = false;
}
get_session_status_policy destroyed = record {
  active = false;
  terminal = true;
  commandable = false;
  live_host_eligible = false;
  offline_replay_eligible = true;
  collectable = true;
  is_destroyed = true;
}

-- The four invariants that the module checks of each row when it is loaded.
pub check_policy : SessionStatusPolicy → Result String (Unit {0})
unfolding xor
check_policy p = do
  invariant (xor p.active p.terminal) "sessions must be exactly one of active or terminal"
  invariant (not p.collectable || p.terminal) "collectable sessions must be terminal"
  invariant (not p.commandable || p.active) "commandable sessions must be active"
  invariant (xor p.live_host_eligible p.offline_replay_eligible)
      "sessions must use exactly one renderer state source"

unfoldable pub is_active_session_status : SessionStatus → Bool
unfolding get_session_status_policy
is_active_session_status s = (get_session_status_policy s).active

unfoldable pub is_terminal_session_status : SessionStatus → Bool
unfolding get_session_status_policy
is_terminal_session_status s = (get_session_status_policy s).terminal

unfoldable pub is_commandable_session_status : SessionStatus → Bool
unfolding get_session_status_policy
is_commandable_session_status s = (get_session_status_policy s).commandable

unfoldable pub is_live_host_eligible_session_status : SessionStatus → Bool
unfolding get_session_status_policy
is_live_host_eligible_session_status s = (get_session_status_policy s).live_host_eligible

unfoldable pub is_offline_replay_eligible_session_status : SessionStatus → Bool
unfolding get_session_status_policy
is_offline_replay_eligible_session_status s = (get_session_status_policy s).offline_replay_eligible

unfoldable pub is_collectable_session_status : SessionStatus → Bool
unfolding get_session_status_policy
is_collectable_session_status s = (get_session_status_policy s).collectable

unfoldable pub is_destroyed_session_status : SessionStatus → Bool
unfolding get_session_status_policy
is_destroyed_session_status s = (get_session_status_policy s).is_destroyed

-- Every row of the table passes the four checks, so loading the module throws for no status.
pub check_policy_ok : (s : SessionStatus) → check_policy (get_session_status_policy s) ≡ ok tt
unfolding check_policy get_session_status_policy
check_policy_ok running = refl
check_policy_ok _ = refl
