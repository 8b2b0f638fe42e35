-- ===== src/Health/Idle.antt =====
-- What a tick does to a session that is idle at a snapshot (internal/health/monitor.go): it resumes a
-- turn, or reports a timeout.
use arcmux.Prelude.{
  Time, ◌+◌, ◌<◌, ◌≡◌, refl, Bool, true, false, Option, some, none, [], ◌∷◌, ◌&&◌, arith,
  if◌then◌else◌,
}
use arcmux.Prelude.Text.{Text}
use arcmux.Session.{idle, working, is_idle, is_working, Session}
use arcmux.Session.Laws.{IsValid, is_some}
use arcmux.Profile.{Profile}
use arcmux.Health.Decision.{IdleDecision, idle_undecided, quiescent_idle}
use arcmux.Health.{
  World, Monitor, CheckResult, RunState, sets, resets, HealthEvent, stuck_detected, check,
  hook_decision, tick_quiescent, tick_decided, tick_checked, tick, observe,
}
use arcmux.Health.Ticks.{check_alive, check_idle, is_idle-state, is_working-state}

-- The event of the tick is `EventStuckDetected`.
unfoldable pub reports_timeout : Option HealthEvent → Bool
reports_timeout none = false
reports_timeout (some e) = elim e.type [ stuck_detected ↦ true | _ ↦ false ]

module _ (to_lower : Text → Text) where
  idle_resumes :
      (m : Monitor) (w : World) (sess : Session) (prof : Profile) (r : CheckResult) (rs : RunState)
      → r.alive ≡ true
      → sess.state ≡ idle
      → tick_checked to_lower m w sess prof r rs
        ≡ (if r.is_idle then ([], none) else (sets working w.set_at ∷ resets ∷ [], none))
  unfolding tick_checked quiescent_idle is_idle is_working
  idle_resumes m w sess prof r rs a h = ground arith

  -- A tick whose snapshot is idle, over a live pane, with a well-formed session at the snapshot of
  -- Check, does nothing if the capture of the screen succeeds and that first snapshot is idle too,
  -- and else sets the session to working: no output of the agent ever does that.
  pub tick-idle_resumes :
      (m : Monitor) (w : World) (seen sess : Session) (prof : Profile) (rs : RunState)
      → IsValid seen
      → w.pane_exists ≡ true
      → sess.state ≡ idle
      → (tick to_lower m w seen sess prof rs).0 ≡ (
          if is_some w.captured && is_idle seen.state
          then ([], none)
          else (sets working w.set_at ∷ resets ∷ [], none))
  unfolding tick
  tick-idle_resumes m w seen sess prof rs v p h =
      let r = check to_lower w seen prof in
      ground (
        arith,
        idle_resumes m w sess prof r (observe to_lower w r rs),
        check_alive to_lower w seen prof,
        check_idle to_lower w seen prof,
        v.idle_dated,
      )

  quiescent_no_timeout :
      (m : Monitor) (w : World) (sess : Session) (prof : Profile) (r : CheckResult) (rs : RunState)
      → reports_timeout (tick_quiescent to_lower m w sess prof r rs).1 ≡ false
  unfolding tick_quiescent reports_timeout
  quiescent_no_timeout m w sess prof r rs = ground arith

  decided_no_timeout :
      (d : IdleDecision) (m : Monitor) (w : World) (sess : Session) (prof : Profile)
      (r : CheckResult) (rs : RunState)
      → reports_timeout (tick_decided to_lower d m w sess prof r rs).1 ≡ false
  unfolding tick_decided reports_timeout
  decided_no_timeout idle_undecided m w sess prof r rs = quiescent_no_timeout m w sess prof r rs
  decided_no_timeout _ m w sess prof r rs = ground arith

  checked_timeout :
      (m : Monitor) (w : World) (sess : Session) (prof : Profile) (r : CheckResult) (rs : RunState)
      → reports_timeout (tick_checked to_lower m w sess prof r rs).1 ≡ true
      → (is_working sess.state ≡ true) × (r.idle_too_long ≡ true)
  unfolding tick_checked reports_timeout
  checked_timeout m w sess prof r rs h = (
    ground (
      arith,
      decided_no_timeout (hook_decision to_lower m w sess prof) m w sess prof r rs,
      quiescent_no_timeout m w sess prof r rs,
    ),
    ground (
      arith,
      decided_no_timeout (hook_decision to_lower m w sess prof) m w sess prof r rs,
      quiescent_no_timeout m w sess prof r rs,
    ),
  )

  -- The instant since which a session has been idle, longer ago than its profile's timeout.
  abbrev pub IsOverdue : World → Profile → Session → Type 0
  IsOverdue w prof sess =
      (at : Time) × (sess.idle_since ≡ some at)
      × (0 < prof.idle_timeout)
      × (at + prof.idle_timeout < w.checked_at)

  too_long-IsOverdue :
      (w : World) (sess : Session) (prof : Profile) (o : Option Time)
      → sess.idle_since ≡ o
      → (check to_lower w sess prof).idle_too_long ≡ true
      → IsOverdue w prof sess
  unfolding check
  too_long-IsOverdue w sess prof none q h = ground arith
  too_long-IsOverdue w sess prof (some at) q h = (at, q, ground arith, ground arith)

  -- A tick reports that the idle timeout has passed only if the session was idle, and overdue, at the
  -- snapshot of Check, and working at the tick's own: only if it was taken up between the two. Of a
  -- session that nothing else calls, no timeout is ever reported.
  pub tick-timeout :
      (m : Monitor) (w : World) (seen sess : Session) (prof : Profile) (rs : RunState)
      → IsValid seen
      → reports_timeout (tick to_lower m w seen sess prof rs).0.1 ≡ true
      → (seen.state ≡ idle) × (sess.state ≡ working) × IsOverdue w prof seen
  unfolding tick
  tick-timeout m w seen sess prof rs v h =
      let r = check to_lower w seen prof in
      let (k, l) = checked_timeout m w sess prof r (observe to_lower w r rs) h in
      let (at, q, p, d) = too_long-IsOverdue w seen prof seen.idle_since refl l in
      (
        is_idle-state seen.state (cc (v.idle_dated, q)),
        is_working-state sess.state k,
        (at, q, p, d),
      )
