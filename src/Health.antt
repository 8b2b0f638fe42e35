-- ===== src/Health.antt =====
-- The health monitor, internal/health/monitor.go: one tick of the loop of `Run`, with its decisions.
-- A tick decides on two snapshots of the session, that of Check and its own, between which other
-- goroutines may call the session; what it does to the session is the list of the calls that it
-- makes. Texts are bytes, and `strings.ToLower` is the parameter `to_lower`.
pub mod Decision
pub mod Ticks
pub mod Screens
pub mod Turns
pub mod Idle
pub mod Loop
mod Tests
use arcmux.Prelude.{
  Time, ℕ, ℤ, pos, zero, suc, ◌*◌, String, Bool, true, false, ◌&&◌, not, Option, some, none, List,
  [], ◌∷◌, ◌++◌, length, take, ltb, ltb_ℤ, leb_ℤ, since, if◌then◌else◌,
}
use arcmux.Prelude.Text.{Text, codes, text_eq, contains}
use arcmux.Session.{
  State, idle, working, stuck, escalated, exited, is_idle, is_working, Session, set_state,
  increment_nudge, reset_nudge,
}
use arcmux.Profile.{Profile, hook_backed}
use Decision.{
  HookState, IdleDecision, idle_undecided, idle_confirmed, idle_working, idle_quiescence,
  quiescent_idle, hook_idle_decision, hook_stale_backstop,
}

pub data EventType : Type 0 where
  stuck_detected nudge_sent nudge_exhausted agent_exited crash_detected idle_detected : EventType

pub record HealthEvent : Type 0 where
  pub session_id : String
  pub type : EventType
  pub reason : Text
  pub output : Text
  pub timestamp : Time

pub record Monitor : Type 0 where
  pub interval : ℕ  -- positive: `time.NewTicker` panics otherwise
  pub has_state_dir : Bool  -- stateDir != ""

-- What one tick meets outside: tmux, the hook state file and the readings of the clock, in the
-- order in which the tick makes them. `hook_state` is `none` when the read fails; a missing file
-- reads as `some none`.
pub record World : Type 0 where
  pub pane_exists : Bool
  pub captured : Option Text
  pub nudge_works : Bool
  pub hook_state : Option (Option HookState)
  pub checked_at : Time
  pub now : Time
  pub set_at : Time
  pub set_again_at : Time

pub record CheckResult : Type 0 where
  pub alive : Bool
  pub output : Text
  pub stuck_match : Text
  pub is_idle : Bool
  pub idle_too_long : Bool

pub record RunState : Type 0 where
  pub last_output : Text
  pub last_change_at : Time

-- The calls of a tick on the session, with the clock's reading for SetState
pub data Change : Type 0 where
  sets : State → Time → Change
  increments resets : Change

unfoldable pub apply_change : Change → Session → Session
apply_change (sets state at) s = set_state state at s
apply_change increments s = increment_nudge s
apply_change resets s = reset_nudge s

-- The calls in their order, with no other call among them
unfoldable pub apply_changes : List Change → Session → Session
unfolding apply_change
apply_changes [] s = s
apply_changes (c ∷ cs) s = apply_changes cs (apply_change c s)

-- The reasons of the events, as UTF-8.
abbrev pub reason_no_pane : Text
reason_no_pane = codes "pane no longer exists"

abbrev pub reason_timeout : Text
reason_timeout = codes "idle timeout exceeded"

abbrev pub reason_turn_end : Text
reason_turn_end = codes "hook:turn_end"

abbrev pub reason_no_hook : Text
reason_no_hook = codes "output quiescent (no turn_end hook)"

abbrev pub reason_quiescent : Text
reason_quiescent = codes "output quiescent"

unfoldable pub truncate : Text → ℕ → Text
truncate s max_len = if ltb max_len (length s) then take max_len s ++ b'.' ∷ b'.' ∷ b'.' ∷ [] else s

-- emit: a non-blocking send on a channel with room for `cap` events.
unfoldable pub emit : ℕ → List HealthEvent → HealthEvent → List HealthEvent
emit cap events e = if ltb (length events) cap then events ++ e ∷ [] else events

module _ (to_lower : Text → Text) where
  -- The first of the profile's patterns that the lowered output contains, or "".
  unfoldable pub stuck_match_of : Text → List Text → Text
  stuck_match_of lower [] = []
  stuck_match_of lower (p ∷ ps) = if contains lower (to_lower p) then p else stuck_match_of lower ps

  unfoldable pub idle_part : Option Time → Profile → Time → CheckResult → CheckResult
  idle_part none prof now r = r
  idle_part (some at) prof now r = record r {
    is_idle = true;
    idle_too_long = ltb 0 prof.idle_timeout && ltb_ℤ (pos prof.idle_timeout) (since now at);
  }

  unfoldable pub check_output : Option Text → Session → Profile → Time → CheckResult
  unfolding stuck_match_of idle_part
  check_output none sess prof now = record {
    alive = true;
    output = [];
    stuck_match = [];
    is_idle = false;
    idle_too_long = false;
  }
  check_output (some out) sess prof now = idle_part sess.idle_since prof now (record {
    alive = true;
    output = out;
    stuck_match = stuck_match_of (to_lower out) prof.stuck_text_patterns;
    is_idle = false;
    idle_too_long = false;
  })

  -- Monitor.Check
  unfoldable pub check : World → Session → Profile → CheckResult
  unfolding check_output
  check w sess prof =
      if w.pane_exists then check_output w.captured sess prof w.checked_at else record {
        alive = false;
        output = [];
        stuck_match = [];
        is_idle = false;
        idle_too_long = false;
      }

  unfoldable pub hook_reading : Option (Option HookState) → Time → IdleDecision
  hook_reading none at = idle_undecided
  hook_reading (some st) at = hook_idle_decision st at

  unfoldable pub hook_decision_since : Option Time → World → IdleDecision
  unfolding hook_reading
  hook_decision_since none w = idle_undecided
  hook_decision_since (some at) w = hook_reading w.hook_state at

  -- Monitor.hookDecision
  unfoldable pub hook_decision : Monitor → World → Session → Profile → IdleDecision
  unfolding hook_decision_since
  hook_decision m w sess prof =
      if not m.has_state_dir
      then idle_undecided
      else if not (hook_backed prof)
      then idle_undecided
      else hook_decision_since sess.working_since w

  abbrev pub Outcome : Type 0
  Outcome = List Change × Option HealthEvent

  abbrev event : World → Session → EventType → Text → Text → HealthEvent
  event w sess type reason output = record {
    session_id = sess.id;
    type = type;
    reason = reason;
    output = output;
    timestamp = w.now;
  }

  -- SetState(StateIdle), ResetNudge and the event of a finished turn
  unfoldable pub finish_turn : World → Session → Text → Outcome
  finish_turn w sess reason =
      (sets idle w.set_at ∷ resets ∷ [], some (event w sess idle_detected reason []))

  -- The last two steps of a tick: quiescence, and an idle session seen at work.
  unfoldable pub tick_quiescent :
      Monitor → World → Session → Profile → CheckResult → RunState → Outcome
  unfolding finish_turn
  tick_quiescent m w sess prof r rs =
      if quiescent_idle sess.state r.stuck_match
        (not (text_eq prof.working_indicator [])
          && contains (to_lower r.output) (to_lower prof.working_indicator))
        (since w.now rs.last_change_at) (idle_quiescence m.interval)
      then finish_turn w sess reason_quiescent
      else if is_idle sess.state && not r.is_idle
      then (sets working w.set_at ∷ resets ∷ [], none)
      else ([], none)

  unfoldable pub tick_decided :
      IdleDecision → Monitor → World → Session → Profile → CheckResult → RunState → Outcome
  unfolding finish_turn tick_quiescent
  tick_decided idle_confirmed m w sess prof r rs = finish_turn w sess reason_turn_end
  tick_decided idle_working m w sess prof r rs =
      if leb_ℤ (pos (hook_stale_backstop m.interval)) (since w.now rs.last_change_at)
      then finish_turn w sess reason_no_hook
      else ([], none)
  tick_decided idle_undecided m w sess prof r rs = tick_quiescent m w sess prof r rs

  -- A working session that shows a stuck pattern.
  unfoldable pub tick_stuck : World → Session → Profile → CheckResult → Outcome
  unfolding truncate
  tick_stuck w sess prof r =
      if ltb sess.nudge_count prof.max_nudge_retries
      then (if w.nudge_works
          then (
            sets stuck w.set_at ∷ increments ∷ [],
            some (event w sess nudge_sent r.stuck_match (truncate r.output 200)),
          )
          else (sets stuck w.set_at ∷ [], none))
      else (
        sets stuck w.set_at ∷ sets escalated w.set_again_at ∷ [],
        some (event w sess nudge_exhausted r.stuck_match (truncate r.output 200)),
      )

  unfoldable pub observe : World → CheckResult → RunState → RunState
  observe w r rs =
      if text_eq rs.last_output r.output
      then rs
      else record { last_output = r.output; last_change_at = w.now }

  unfoldable pub tick_checked :
      Monitor → World → Session → Profile → CheckResult → RunState → Outcome
  unfolding tick_stuck tick_decided tick_quiescent hook_decision
  tick_checked m w sess prof r rs =
      if not r.alive
      then (sets exited w.set_at ∷ [], some (event w sess agent_exited reason_no_pane []))
      else if not (text_eq r.stuck_match []) && is_working sess.state
      then tick_stuck w sess prof r
      else if r.idle_too_long && is_working sess.state
      then (sets stuck w.set_at ∷ [], some (event w sess stuck_detected reason_timeout []))
      else if is_working sess.state
      then tick_decided (hook_decision m w sess prof) m w sess prof r rs
      else tick_quiescent m w sess prof r rs

  -- Monitor.tick, up to the send of its event: `seen` is the session at Check's snapshot, and `sess`
  -- at the later one of the tick.
  unfoldable pub tick :
      Monitor → World → Session → Session → Profile → RunState → Outcome × RunState
  unfolding check tick_checked observe
  tick m w seen sess prof rs =
      let r = check w seen prof in
      let rs' = observe w r rs in (tick_checked m w sess prof r rs', rs')
