-- ===== src/Health/Ticks.antt =====
-- What one tick of the monitor does to a session (internal/health/monitor.go, tick).
use arcmux.Prelude.{◌≡◌, refl, Bool, true, false, none, List, [], ◌∷◌, ◌&&◌, ◌∙◌, arith}
use arcmux.Prelude.Text.{Text}
use arcmux.Session.{State, idle, working, stuck, escalated, exited, is_idle, is_working, Session}
use arcmux.Session.Laws.{is_some}
use arcmux.Profile.{Profile}
use arcmux.Health.Decision.{IdleDecision, idle_undecided, quiescent_idle}
use arcmux.Health.{
  World, Monitor, CheckResult, RunState, Change, sets, increments, resets, check, hook_decision,
  finish_turn, tick_quiescent, tick_decided, tick_stuck, tick_checked, tick, observe,
}

-- The states that the monitor sets a session to, from the state of its snapshot.
pub may_set : State → State → Bool
may_set s exited = true
may_set working stuck = true
may_set working escalated = true
may_set working idle = true
may_set idle working = true
may_set s t = false

may_set-exited : (s : State) → may_set s exited ≡ true
unfolding may_set
may_set-exited State.starting = refl
may_set-exited _ = refl

-- Every state that is set is one of these.
pub sets_within : State → List Change → Bool
unfolding may_set
sets_within s [] = true
sets_within s (sets t at ∷ cs) = may_set s t && sets_within s cs
sets_within s (increments ∷ cs) = sets_within s cs
sets_within s (resets ∷ cs) = sets_within s cs

pub is_idle-state : (s : State) → is_idle s ≡ true → s ≡ idle
unfolding is_idle
is_idle-state idle h = refl
is_idle-state _ h = cc

pub is_working-state : (s : State) → is_working s ≡ true → s ≡ working
unfolding is_working
is_working-state working h = refl
is_working-state _ h = cc

module _ (to_lower : Text → Text) where
  pub check_alive :
      (w : World) (sess : Session) (prof : Profile)
      → (check to_lower w sess prof).alive ≡ w.pane_exists
  unfolding check
  check_alive w sess prof = ground arith

  -- A result's IsIdle, for a session whose pane is alive.
  pub check_idle :
      (w : World) (sess : Session) (prof : Profile)
      → w.pane_exists ≡ true
      → (check to_lower w sess prof).is_idle ≡ (is_some w.captured && is_some sess.idle_since)
  unfolding check
  check_idle w sess prof h = ground arith

  tick_rests_checked :
      (m : Monitor) (w : World) (sess : Session) (prof : Profile) (r : CheckResult) (rs : RunState)
      → r.alive ≡ true
      → is_idle sess.state ≡ false
      → is_working sess.state ≡ false
      → tick_checked to_lower m w sess prof r rs ≡ ([], none)
  unfolding tick_checked quiescent_idle
  tick_rests_checked m w sess prof r rs p i k = ground arith

  -- A session whose pane is alive and that is neither idle nor working is left as it is, with no
  -- event: the monitor nudges a stuck session no more.
  pub tick_rests :
      (m : Monitor) (w : World) (seen sess : Session) (prof : Profile) (rs : RunState)
      → w.pane_exists ≡ true
      → is_idle sess.state ≡ false
      → is_working sess.state ≡ false
      → (tick to_lower m w seen sess prof rs).0 ≡ ([], none)
  unfolding tick
  tick_rests m w seen sess prof rs p i k =
      let r = check to_lower w seen prof in
      tick_rests_checked m w sess prof r (observe to_lower w r rs) (check_alive w seen prof ∙ p) i k

  tick_quiescent-moves :
      (m : Monitor) (w : World) (sess : Session) (prof : Profile) (r : CheckResult) (rs : RunState)
      → sets_within sess.state (tick_quiescent to_lower m w sess prof r rs).0 ≡ true
  unfolding tick_quiescent quiescent_idle sets_within is_idle is_working
  tick_quiescent-moves m w sess prof r rs = ground arith

  tick_decided-moves :
      (d : IdleDecision) (m : Monitor) (w : World) (sess : Session) (prof : Profile)
      (r : CheckResult) (rs : RunState)
      → sess.state ≡ working
      → sets_within sess.state (tick_decided to_lower d m w sess prof r rs).0 ≡ true
  unfolding tick_decided finish_turn sets_within
  tick_decided-moves idle_undecided m w sess prof r rs h = tick_quiescent-moves m w sess prof r rs
  tick_decided-moves _ m w sess prof r rs h = ground arith

  tick_stuck-moves :
      (w : World) (sess : Session) (prof : Profile) (r : CheckResult)
      → sess.state ≡ working
      → sets_within sess.state (tick_stuck to_lower w sess prof r).0 ≡ true
  unfolding tick_stuck sets_within
  tick_stuck-moves w sess prof r h = ground arith

  tick_checked-moves :
      (m : Monitor) (w : World) (sess : Session) (prof : Profile) (r : CheckResult) (rs : RunState)
      → sets_within sess.state (tick_checked to_lower m w sess prof r rs).0 ≡ true
  unfolding tick_checked is_working sets_within
  tick_checked-moves m w sess prof r rs = ground (
    arith,
    may_set-exited sess.state,
    tick_stuck-moves w sess prof r,
    tick_decided-moves (hook_decision to_lower m w sess prof) m w sess prof r rs,
    tick_quiescent-moves m w sess prof r rs,
  )

  -- Every state that a tick sets is exited, or stuck, escalated or idle where the tick's snapshot is
  -- working, or working where it is idle. In particular no tick whose snapshot is stuck escalates
  -- the session.
  pub tick-moves :
      (m : Monitor) (w : World) (seen sess : Session) (prof : Profile) (rs : RunState)
      → sets_within sess.state (tick to_lower m w seen sess prof rs).0.0 ≡ true
  unfolding tick
  tick-moves m w seen sess prof rs =
      let r = check to_lower w seen prof in
      tick_checked-moves m w sess prof r (observe to_lower w r rs)
