-- ===== src/Health/Loop.antt =====
-- The loop of Run (internal/health/monitor.go) over a session that nothing else calls: its ticks,
-- with what they send.
use arcmux.Prelude.{
  ℕ, ◌+◌, ◌≤◌, ◌≡◌, refl, ◌⊎◌, inl, inr, Bool, true, false, ◌&&◌, ◌||◌, not, Option, some, none,
  List, [], ◌∷◌, ◌++◌, length, length-append, ltb, if◌then◌else◌, if_cases, arith,
}
use arcmux.Prelude.Text.{Text, text_eq}
use arcmux.Session.{State, is_idle, is_working, Session, set_state, increment_nudge}
use arcmux.Profile.{Profile}
use arcmux.Health.Decision.{IdleDecision, idle_undecided, quiescent_idle}
use arcmux.Health.{
  World, Monitor, CheckResult, RunState, HealthEvent, nudge_sent, Change, emit, check,
  hook_decision, tick_quiescent, tick_decided, tick_stuck, tick_checked, tick, observe,
  apply_changes,
}

-- A session under the monitor: with the loop's own state, and the events in the channel, which
-- nobody takes out meanwhile.
pub record Watch : Type 0 where
  pub session : Session
  pub run_state : RunState
  pub events : List HealthEvent

unfoldable pub emit_if : ℕ → List HealthEvent → Option HealthEvent → List HealthEvent
unfolding emit
emit_if cap events none = events
emit_if cap events (some e) = emit cap events e

abbrev is_nudge : HealthEvent → Bool
is_nudge e = elim e.type [ nudge_sent ↦ true | _ ↦ false ]

abbrev nudges : Option HealthEvent → ℕ
nudges none = 0
nudges (some e) = if is_nudge e then 1 else 0

-- The nudges among the events
unfoldable pub count_nudges : List HealthEvent → ℕ
count_nudges [] = 0
count_nudges (e ∷ es) = nudges (some e) + count_nudges es

count_nudges-append :
    (es : List HealthEvent) (e : HealthEvent)
    → count_nudges (es ++ e ∷ []) ≡ count_nudges es + nudges (some e)
unfolding count_nudges
count_nudges-append [] e = ground arith
count_nudges-append (f ∷ es) e = omega (arith, count_nudges-append es e)

-- The states that the monitor takes a session out of otherwise than to exited
abbrev is_active : State → Bool
is_active s = is_idle s || is_working s

module _ (to_lower : Text → Text) (cap : ℕ) (m : Monitor) (prof : Profile) where
  unfoldable pub tick_watch : World → Watch → Watch
  unfolding emit_if
  tick_watch w s =
      let ((changes, event), rs) = tick to_lower m w s.session s.session prof s.run_state in
      record {
        session = apply_changes changes s.session;
        run_state = rs;
        events = emit_if cap s.events event;
      }

  unfoldable pub watch : List World → Watch → Watch
  unfolding tick_watch
  watch [] s = s
  watch (w ∷ ws) s = watch ws (tick_watch w s)

  emit_if_bounded :
      (es : List HealthEvent) (o : Option HealthEvent)
      → length es ≤ cap
      → length (emit_if cap es o) ≤ cap
  unfolding emit_if
  emit_if_bounded es none h = h
  emit_if_bounded es (some e) h = ground (arith, length-append es (e ∷ []))

  -- Over any ticks, the channel of events never holds more than its capacity.
  pub watch-bounded :
      (ws : List World) (s : Watch) → length s.events ≤ cap → length (watch ws s).events ≤ cap
  unfolding watch tick_watch
  watch-bounded [] s h = h
  watch-bounded (w ∷ ws) s h = watch-bounded ws (tick_watch w s) (emit_if_bounded s.events _ h)

  emit_if-nudges :
      (es : List HealthEvent) (o : Option HealthEvent)
      → count_nudges (emit_if cap es o) ≤ count_nudges es + nudges o
  unfolding emit_if
  emit_if-nudges es none = omega arith
  emit_if-nudges es (some e) =
      if_cases (λ r. count_nudges r ≤ count_nudges es + nudges (some e)) (ltb (length es) cap)
        (λ _. omega (arith, count_nudges-append es e)) (λ _. omega arith)

  -- What a tick does, for the count of nudges: it sends none, or one and the session is not active
  -- after it.
  abbrev Nudges : Session → List Change × Option HealthEvent → Type 0
  Nudges sess (changes, event) =
      (nudges event ≡ 0)
      ⊎ ((nudges event ≡ 1) × (is_active (apply_changes changes sess).state ≡ false))

  tick_quiescent-quiet :
      (w : World) (sess : Session) (r : CheckResult) (rs : RunState)
      → nudges (tick_quiescent to_lower m w sess prof r rs).1 ≡ 0
  unfolding tick_quiescent
  tick_quiescent-quiet w sess r rs = ground arith

  tick_decided-quiet :
      (d : IdleDecision) (w : World) (sess : Session) (r : CheckResult) (rs : RunState)
      → nudges (tick_decided to_lower d m w sess prof r rs).1 ≡ 0
  unfolding tick_decided
  tick_decided-quiet idle_undecided w sess r rs = tick_quiescent-quiet w sess r rs
  tick_decided-quiet _ w sess r rs = ground arith

  tick_stuck-Nudges :
      (w : World) (sess : Session) (r : CheckResult)
      → Nudges sess (tick_stuck to_lower w sess prof r)
  unfolding tick_stuck apply_changes set_state increment_nudge is_idle is_working
  tick_stuck-Nudges w sess r =
      if_cases (Nudges sess) (ltb sess.nudge_count prof.max_nudge_retries)
        (λ _. if_cases (Nudges sess) w.nudge_works (λ _. inr (refl, refl)) (λ _. inl refl))
        (λ _. inl refl)

  tick_checked-Nudges :
      (w : World) (sess : Session) (r : CheckResult) (rs : RunState)
      → Nudges sess (tick_checked to_lower m w sess prof r rs)
  unfolding tick_checked
  tick_checked-Nudges w sess r rs =
      if_cases (Nudges sess) (not r.alive) (λ _. inl refl)
        (λ _.
          if_cases (Nudges sess) (not (text_eq r.stuck_match []) && is_working sess.state)
            (λ _. tick_stuck-Nudges w sess r)
            (λ _.
              if_cases (Nudges sess) (r.idle_too_long && is_working sess.state) (λ _. inl refl)
                (λ _.
                  if_cases (Nudges sess) (is_working sess.state)
                    (λ _.
                      inl (tick_decided-quiet (hook_decision to_lower m w sess prof) w sess r rs))
                    (λ _. inl (tick_quiescent-quiet w sess r rs)))))

  tick-Nudges :
      (w : World) (s : Watch)
      → Nudges s.session (tick to_lower m w s.session s.session prof s.run_state).0
  unfolding tick
  tick-Nudges w s =
      let r = check to_lower w s.session prof in
      tick_checked-Nudges w s.session r (observe to_lower w r s.run_state)

  -- A tick over a session that is not active sends no nudge, and leaves it so.
  tick_checked-inactive :
      (w : World) (sess : Session) (r : CheckResult) (rs : RunState)
      → is_active sess.state ≡ false
      → (nudges (tick_checked to_lower m w sess prof r rs).1 ≡ 0)
        × (is_active (apply_changes (tick_checked to_lower m w sess prof r rs).0 sess).state
            ≡ false)
  unfolding tick_checked tick_quiescent quiescent_idle apply_changes set_state is_idle is_working
  tick_checked-inactive w sess r rs h = (ground arith, ground arith)

  tick-inactive :
      (w : World) (s : Watch)
      → is_active s.session.state ≡ false
      → let (changes, event) = (tick to_lower m w s.session s.session prof s.run_state).0 in
        (nudges event ≡ 0) × (is_active (apply_changes changes s.session).state ≡ false)
  unfolding tick
  tick-inactive w s h =
      let r = check to_lower w s.session prof in
      tick_checked-inactive w s.session r (observe to_lower w r s.run_state) h

  watch-inactive :
      (ws : List World) (s : Watch)
      → is_active s.session.state ≡ false
      → count_nudges (watch ws s).events ≤ count_nudges s.events
  unfolding watch tick_watch
  watch-inactive [] s h = omega arith
  watch-inactive (w ∷ ws) s h =
      let (n, k) = tick-inactive w s h in
      let e = (tick to_lower m w s.session s.session prof s.run_state).0.1 in
      omega (arith, n, emit_if-nudges s.events e, watch-inactive ws (tick_watch w s) k)

  -- Over any ticks of a session that nothing else calls, at most one nudge is sent, whatever
  -- `max_nudge_retries` is: the nudge leaves the session stuck, and no tick nudges a stuck session
  -- again or escalates it.
  pub watch-nudges :
      (ws : List World) (s : Watch) → count_nudges (watch ws s).events ≤ count_nudges s.events + 1
  unfolding watch tick_watch
  watch-nudges [] s = omega arith
  watch-nudges (w ∷ ws) s =
      let e = (tick to_lower m w s.session s.session prof s.run_state).0.1 in
      elim (tick-Nudges w s) [
        | inl n ↦ omega (arith, n, emit_if-nudges s.events e, watch-nudges ws (tick_watch w s))
        | inr (n, k) ↦
            omega (arith, n, emit_if-nudges s.events e, watch-inactive ws (tick_watch w s) k)
      ]
