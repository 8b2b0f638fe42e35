-- ===== src/Health/Turns.antt =====
-- Why a tick ends a turn (internal/health/monitor.go).
use arcmux.Prelude.{
  Time, ℕ, pos, ◌+◌, ◌*◌, ◌≤◌, ◌<◌, ◌≡◌, refl, ◌⊎◌, inl, inr, Bool, true, false, Option, some, none,
  List, [], ◌∷◌, ◌||◌, arith, leb_ℤ, since, second,
}
use arcmux.Prelude.Text.{Text}
use arcmux.Session.{working, is_idle, is_working, Session}
use arcmux.Profile.{Profile}
use arcmux.Health.Decision.{
  HookState, IdleDecision, idle_undecided, idle_confirmed, idle_working, quiescent_idle,
  idle_quiescence, hook_idle_decision, hook_stale_backstop,
}
use arcmux.Health.{
  World, Monitor, CheckResult, RunState, Change, sets, increments, resets, check, hook_decision,
  hook_decision_since, tick_quiescent, tick_decided, tick_stuck, tick_checked, tick, observe,
}
use arcmux.Health.Ticks.{is_working-state}
use arcmux.Health.Screens.{IsStatic, Ran, latest, IsStatic-since}

-- Some call sets the session to idle.
unfoldable pub sets_idle : List Change → Bool
sets_idle [] = false
sets_idle (sets t at ∷ cs) = is_idle t || sets_idle cs
sets_idle (increments ∷ cs) = sets_idle cs
sets_idle (resets ∷ cs) = sets_idle cs

module _ (to_lower : Text → Text) where
  -- The agent's own report: a turn that ended after the present one began.
  abbrev pub Reported : World → Session → Type 0
  Reported w sess =
      (st : HookState) × (at : Time) × (w.hook_state ≡ some (some st))
      × (sess.working_since ≡ some at)
      × (at < st.last_turn_end_at)
      × (st.working ≡ false)

  confirmed-Reported :
      (o : Option (Option HookState)) (since : Option Time) (w : World) (sess : Session)
      → w.hook_state ≡ o
      → sess.working_since ≡ since
      → hook_decision_since to_lower since w ≡ idle_confirmed
      → Reported w sess
  unfolding hook_decision_since hook_idle_decision
  confirmed-Reported none none w sess e f h = cc
  confirmed-Reported (some none) none w sess e f h = cc
  confirmed-Reported (some (some st)) none w sess e f h = cc
  confirmed-Reported none (some at) w sess e f h = ground arith
  confirmed-Reported (some none) (some at) w sess e f h = ground arith
  confirmed-Reported (some (some st)) (some at) w sess e f h =
      (st, at, e, f, ground arith, ground arith)

  idle_quiescence_floor : (interval : ℕ) → 5 * second ≤ idle_quiescence interval
  unfolding idle_quiescence
  idle_quiescence_floor interval = ground arith

  -- The screen has been the same for five seconds, by the tick's own record.
  abbrev IsQuiet : World → RunState → Type 0
  IsQuiet w rs = rs.last_change_at + 5 * second ≤ w.now

  IsQuiet-of_since :
      (q : ℕ) (w : World) (rs : RunState)
      → 5 * second ≤ q
      → leb_ℤ (pos q) (since w.now rs.last_change_at) ≡ true
      → IsQuiet w rs
  IsQuiet-of_since q w rs f h = ground arith

  quiescent-IsQuiet :
      (m : Monitor) (w : World) (sess : Session) (prof : Profile) (r : CheckResult) (rs : RunState)
      → sets_idle (tick_quiescent to_lower m w sess prof r rs).0 ≡ true
      → (is_working sess.state ≡ true) × IsQuiet w rs
  unfolding tick_quiescent quiescent_idle sets_idle is_idle
  quiescent-IsQuiet m w sess prof r rs h = (
    ground arith,
    ground (
      arith,
      IsQuiet-of_since (idle_quiescence m.interval) w rs (idle_quiescence_floor m.interval),
    ),
  )

  decided_justified :
      (d : IdleDecision) (m : Monitor) (w : World) (sess : Session) (prof : Profile)
      (r : CheckResult) (rs : RunState)
      → sets_idle (tick_decided to_lower d m w sess prof r rs).0 ≡ true
      → (d ≡ idle_confirmed) ⊎ IsQuiet w rs
  unfolding tick_decided hook_stale_backstop sets_idle
  decided_justified idle_undecided m w sess prof r rs h =
      inr (quiescent-IsQuiet m w sess prof r rs h).1
  decided_justified idle_confirmed m w sess prof r rs h = inl refl
  decided_justified idle_working m w sess prof r rs h = inr (
      ground (
        arith,
        idle_quiescence_floor m.interval,
        IsQuiet-of_since (3 * idle_quiescence m.interval) w rs,
      ))

  stuck_not_idle :
      (w : World) (sess : Session) (prof : Profile) (r : CheckResult)
      → sets_idle (tick_stuck to_lower w sess prof r).0 ≡ false
  unfolding tick_stuck sets_idle is_idle
  stuck_not_idle w sess prof r = ground arith

  hook_decision-Reported :
      (m : Monitor) (w : World) (sess : Session) (prof : Profile)
      → hook_decision to_lower m w sess prof ≡ idle_confirmed
      → Reported w sess
  unfolding hook_decision
  hook_decision-Reported m w sess prof h =
      confirmed-Reported w.hook_state sess.working_since w sess refl refl (ground arith)

  checked_justified :
      (m : Monitor) (w : World) (sess : Session) (prof : Profile) (r : CheckResult) (rs : RunState)
      → sets_idle (tick_checked to_lower m w sess prof r rs).0 ≡ true
      → (is_working sess.state ≡ true)
        × ((hook_decision to_lower m w sess prof ≡ idle_confirmed) ⊎ IsQuiet w rs)
  unfolding tick_checked sets_idle is_idle
  checked_justified m w sess prof r rs h = (
    ground (arith, stuck_not_idle w sess prof r, quiescent-IsQuiet m w sess prof r rs),
    ground (
      arith,
      stuck_not_idle w sess prof r,
      quiescent-IsQuiet m w sess prof r rs,
      decided_justified (hook_decision to_lower m w sess prof) m w sess prof r rs,
    ),
  )

  -- After any ticks of the loop, over which the clock does not run backwards and the session is
  -- whatever it is at each snapshot, a tick sets the session to idle only if it is working at the
  -- tick's snapshot, and the agent's hooks report that a turn ended after the present one began, or
  -- the loop began five seconds ago at least and every tick of the last five seconds saw the screen
  -- that this one sees.
  pub tick-idle_justified :
      (m : Monitor) (prof : Profile) (start : Time) (ws : List World) (rs : RunState)
      → Ran to_lower m prof start ws rs
      → (w : World) (seen sess : Session) → latest start ws ≤ w.now
      → sets_idle (tick to_lower m w seen sess prof rs).0.0 ≡ true
      → (sess.state ≡ working) × (Reported w sess ⊎ IsStatic start w ws)
  unfolding tick
  tick-idle_justified m prof start ws rs ran w seen sess late h =
      let r = check to_lower w seen prof in
      let (k, j) = checked_justified m w sess prof r (observe to_lower w r rs) h in
      (
        is_working-state sess.state k,
        elim j [
          | inl c ↦ inl (hook_decision-Reported m w sess prof c)
          | inr q ↦ inr (IsStatic-since to_lower m prof start ws rs ran w seen late q)
        ],
      )
