-- ===== src/Pulse/Series.antt =====
-- Series of ticks (internal/manager/pulse/pulse.go, Tick and Run): an idle inbox is woken no faster
-- than the cadence.
use arcmux.Prelude.{
  Time, ℕ, ℤ, ◌+◌, ◌*◌, ◌≤◌, ◌≡◌, refl, ap, String, str_eq, true, ◌&&◌, Option, some, none, List,
  [], ◌∷◌, not, ◌||◌, leb, ltb, arith, ◌⊎◌, inl, inr, Bool-cases, length, length-append,
}
use arcmux.Pulse.{
  Target, Memory, Trigger, inbox_grew, cadence_elapsed, both, no_trigger, is_none, MetaResult,
  found, not_found, failed, World, Pulser, recall, depth_of, seen, anchor, decide, evaluate,
  evaluate_all, collect_targets, tick, tick_targets, ticks,
}
use arcmux.Pulse.Wakes.{next_memory, evaluate-memory, decide-due}

abbrev pub session_memory : Pulser → Option Memory
session_memory p = recall "session" p.mem

-- The ticks see an empty inbox and a clock that does not run backwards from `t`.
abbrev pub IsQuiet : Time → List World → Type 0
IsQuiet t [] = Unit
IsQuiet t (w ∷ ws) = (t ≤ w.now) × (depth_of w.depth ≡ 0) × IsQuiet w.now ws

abbrev pub last_now : Time → List World → Time
last_now t [] = t
last_now t (w ∷ ws) = last_now w.now ws

abbrev pub last_wake : Option Memory → Time
last_wake none = 0
last_wake (some m) = m.last_wake_at

-- Some wakes lie between two states of the pulser, each a cadence after the one before.
pub record IsSpaced (p q : Pulser) : Type 0 where
  pub remembered : seen (session_memory q) ≡ true
  pub same_cadence : q.cadence ≡ p.cadence
  pub spaced :
      p.cadence * length q.sent + last_wake (session_memory p)
      ≤ p.cadence * length p.sent + last_wake (session_memory q)

abbrev session_target : ℕ → String → Target
session_target c pane = record { id = "session"; pane_ref = pane; cadence = c }

-- What collectTargets may return.
abbrev Collected : ℕ → Option (List Target) → Type 0
Collected c o =
    (o ≡ none) ⊎ ((o ≡ some []) ⊎ ((pane : String) × (o ≡ some (session_target c pane ∷ []))))

collect-Collected : (c : ℕ) (meta : MetaResult) → Collected c (collect_targets c meta)
unfolding collect_targets
collect-Collected c not_found = inr (inl refl)
collect-Collected c failed = inl refl
collect-Collected c (found pane) = elim (Bool-cases (str_eq pane "")) [
  | inl e ↦ inr (inl (rw e))
  | inr e ↦ inr (inr (pane, rw e))
]

seen-some : (o : Option Memory) → seen o ≡ true → (m : Memory) × (o ≡ some m)
unfolding seen
seen-some none h = cc
seen-some (some m) h = (m, refl)

abbrev wakes_of : Trigger → Option String → ℕ
wakes_of no_trigger e = 0
wakes_of t (some e) = 0
wakes_of t none = 1

step_spaced :
    (t : Trigger) (e : Option String) (m : Memory) (c k now : ℕ)
    → is_none t ≡ not (ltb m.last_inbox_depth 0 || ltb 0 c && leb (m.last_wake_at + c) now)
    → m.last_wake_at ≤ now
    → let n = next_memory t e m 0 now in
      (c * (k + wakes_of t e) + m.last_wake_at ≤ c * k + n.last_wake_at) × (n.last_wake_at ≤ now)
unfolding is_none
step_spaced no_trigger e m c k now h t = omega arith
step_spaced inbox_grew (some e) m c k now h t = omega arith
step_spaced inbox_grew none m c k now h t = ground arith
step_spaced both (some e) m c k now h t = omega arith
step_spaced both none m c k now h t = ground arith
step_spaced cadence_elapsed (some e) m c k now h t = omega arith
step_spaced cadence_elapsed none m c k now h t = ground arith

module _ (wake_body : Target → ℕ → ℤ → String) where
  evaluate_sent :
      (tg : Target) (w : World) (p : Pulser)
      → length (evaluate wake_body tg w p).1.sent
        ≡ length p.sent + wakes_of (decide wake_body tg w (recall tg.id p.mem)).trigger w.send_error
  unfolding evaluate
  evaluate_sent tg w p =
      let d = decide wake_body tg w (recall tg.id p.mem) in
      let body : String × String = (tg.pane_ref, wake_body tg d.inbox_depth d.since_last) in
      ground (arith, length-append p.sent (body ∷ []))

  evaluate_cadence :
      (tg : Target) (w : World) (p : Pulser) → (evaluate wake_body tg w p).1.cadence ≡ p.cadence
  unfolding evaluate
  evaluate_cadence tg w p = ground arith

  quiet_evaluate :
      (tg : Target) (w : World) (p : Pulser) (m : Memory)
      → recall tg.id p.mem ≡ some m
      → m.last_wake_at ≤ w.now
      → depth_of w.depth ≡ 0
      → let q = (evaluate wake_body tg w p).1 in
        (tg.cadence * length q.sent + m.last_wake_at
          ≤ tg.cadence * length p.sent + last_wake (recall tg.id q.mem))
        × (last_wake (recall tg.id q.mem) ≤ w.now)
        × (seen (recall tg.id q.mem) ≡ true)
  unfolding seen anchor
  quiet_evaluate tg w p m r t d =
      let due = rw d at (decide-due wake_body tg w m) in
      let known = rw (r, anchor, d) at (evaluate-memory wake_body tg w p) in
      let sent = rw r at (evaluate_sent tg w p) in
      let s =
        step_spaced (decide wake_body tg w (some m)).trigger w.send_error m tg.cadence
          (length p.sent) w.now due t in
      rw (known, sent) (s.0, s.1, refl)

  rest-IsSpaced : (p : Pulser) (m : Memory) → session_memory p ≡ some m → IsSpaced p p
  unfolding seen
  rest-IsSpaced p m r = record { remembered = rw r; same_cadence = refl; spaced = omega arith }

  quiet_targets :
      (o : Option (List Target)) (w : World) (p : Pulser) (m : Memory)
      → Collected p.cadence o
      → session_memory p ≡ some m
      → m.last_wake_at ≤ w.now
      → depth_of w.depth ≡ 0
      → let q = (tick_targets wake_body o w p).1 in
        IsSpaced p q × (last_wake (session_memory q) ≤ w.now)
  unfolding tick_targets evaluate_all seen
  quiet_targets o w p m (inl e) r t d = rw e (rest-IsSpaced p m r, rw r t)
  quiet_targets o w p m (inr (inl e)) r t d =
      rw e (record { remembered = rw r; same_cadence = refl; spaced = omega arith }, rw r t)
  quiet_targets o w p m (inr (inr (pane, e))) r t d =
      let tg = session_target p.cadence pane in
      let (s, l, k) = quiet_evaluate tg w p m r t d in
      rw e (
        record {
          remembered = k;
          same_cadence = evaluate_cadence tg w p;
          spaced = omega (arith, ap last_wake r);
        },
        l,
      )

  quiet_tick :
      (w : World) (p : Pulser) (m : Memory)
      → session_memory p ≡ some m
      → m.last_wake_at ≤ w.now
      → depth_of w.depth ≡ 0
      → IsSpaced p (tick wake_body w p).1
        × (last_wake (session_memory (tick wake_body w p).1) ≤ w.now)
  unfolding tick
  quiet_tick w p m r t d =
      quiet_targets (collect_targets p.cadence w.meta) w p m (collect-Collected p.cadence w.meta) r
        t d

  -- From a pulser that knows its session, over ticks that see an empty inbox and a clock that does
  -- not run backwards, the wakes sent are a cadence apart: their number times the cadence is at most
  -- the time from the last wake before to the last tick.
  pub ticks-spaced :
      (ws : List World) (p : Pulser) (m : Memory) (t : Time)
      → session_memory p ≡ some m
      → m.last_wake_at ≤ t
      → IsQuiet t ws
      → p.cadence * length (ticks wake_body ws p).sent + m.last_wake_at
        ≤ p.cadence * length p.sent + last_now t ws
  unfolding ticks
  ticks-spaced [] p m t r h q = omega arith
  ticks-spaced (w ∷ ws) p m t r h q =
      let (s, l) = quiet_tick w p m r (omega arith) q.1 in
      let p' = (tick wake_body w p).1 in
      let (n, e) = seen-some (session_memory p') s.remembered in
      let later =
        rw s.same_cadence at (ticks-spaced ws p' n w.now e (omega (arith, ap last_wake e)) q.2) in
      omega (arith, later, s.spaced, ap last_wake r, ap last_wake e)
