-- ===== src/Pulse/Wakes.antt =====
-- One evaluation of a wake target (internal/manager/pulse/pulse.go, evaluate).
use arcmux.Prelude.{
  Time, ℕ, ℤ, ◌+◌, ◌≤◌, ◌≡◌, String, eq_iff, false, ◌&&◌, Option, some, none, List, [], ◌∷◌, leb,
  ltb, not, ◌||◌, if◌then◌else◌, arith,
}
use arcmux.Pulse.{
  Target, Memory, Trigger, inbox_grew, no_trigger, World, Pulser, recall, remember, depth_of,
  anchor, is_none, decide, evaluate,
}

pub recall-remember_self :
    (k : String) (m : Memory) (ms : List (String × Memory)) → recall k (remember k m ms) ≡ some m
unfolding recall remember
recall-remember_self k m [] = ground (arith, eq_iff k k)
recall-remember_self k m ((j, o) ∷ ms) =
    ground (arith, eq_iff k k, eq_iff j k, recall-remember_self k m ms)

-- What an evaluation leaves in the memory of its target.
abbrev pub next_memory : Trigger → Option String → Memory → ℕ → Time → Memory
next_memory no_trigger e m depth now = record m { last_inbox_depth = depth }
next_memory t (some e) m depth now = m
next_memory t none m depth now = record { last_inbox_depth = depth; last_wake_at = now }

module _ (wake_body : Target → ℕ → ℤ → String) where
  -- After an evaluation the memory of its target has the depth seen where no wake was due, the depth
  -- and the instant of the wake where one was sent, and is what it was, anchored at this instant for
  -- a new target, where the send failed.
  pub evaluate-memory :
      (tg : Target) (w : World) (p : Pulser)
      → let o = recall tg.id p.mem in
        recall tg.id (evaluate wake_body tg w p).1.mem
        ≡ some (
            next_memory
              (decide wake_body tg w o).trigger
              w.send_error
              (anchor o w.now)
              (depth_of w.depth)
              w.now)
  unfolding evaluate
  evaluate-memory tg w p =
      let m = anchor (recall tg.id p.mem) w.now in
      let fresh : Memory = record { last_inbox_depth = depth_of w.depth; last_wake_at = w.now } in
      ground (
        arith,
        recall-remember_self tg.id m p.mem,
        recall-remember_self tg.id (record m { last_inbox_depth = depth_of w.depth }) p.mem,
        recall-remember_self tg.id fresh (remember tg.id m p.mem),
      )

  -- A target that was never seen is woken by mail alone: by its cadence it is not, however long the
  -- pulser was down.
  pub decide-new :
      (tg : Target) (w : World)
      → (decide wake_body tg w none).trigger
        ≡ (if ltb 0 (depth_of w.depth) then inbox_grew else no_trigger)
  unfolding decide
  decide-new tg w = ground arith

  -- A wake is due exactly when the inbox has grown past the depth remembered, or the target's
  -- cadence, which is positive, has passed since the last wake.
  pub decide-due :
      (tg : Target) (w : World) (m : Memory)
      → is_none (decide wake_body tg w (some m)).trigger
        ≡ not (
            ltb m.last_inbox_depth (depth_of w.depth)
            || ltb 0 tg.cadence && leb (m.last_wake_at + tg.cadence) w.now)
  unfolding decide is_none
  decide-due tg w m = ground arith

  evaluate_failed :
      (tg : Target) (w : World) (p : Pulser) (e : String)
      → (evaluate wake_body tg w p).0.wake_error ≡ some e
      → (is_none (decide wake_body tg w (recall tg.id p.mem)).trigger ≡ false)
        × (recall tg.id (evaluate wake_body tg w p).1.mem
            ≡ some (anchor (recall tg.id p.mem) w.now))
  unfolding evaluate
  evaluate_failed tg w p e h =
      ground (arith, recall-remember_self tg.id (anchor (recall tg.id p.mem) w.now) p.mem)

  decide_again :
      (tg : Target) (w w' : World) (o : Option Memory)
      → is_none (decide wake_body tg w o).trigger ≡ false
      → w.now ≤ w'.now
      → depth_of w.depth ≤ depth_of w'.depth
      → is_none (decide wake_body tg w' (some (anchor o w.now))).trigger ≡ false
  unfolding decide is_none
  decide_again tg w w' none h t d = ground arith
  decide_again tg w w' (some m) h t d = ground arith

  -- A wake whose send failed is due again on the next evaluation, if by then the clock has not run
  -- backwards and the inbox is as deep at least.
  pub evaluate-retries :
      (tg : Target) (w w' : World) (p : Pulser) (e : String)
      → (evaluate wake_body tg w p).0.wake_error ≡ some e
      → w.now ≤ w'.now
      → depth_of w.depth ≤ depth_of w'.depth
      → is_none (decide wake_body tg w' (recall tg.id (evaluate wake_body tg w p).1.mem)).trigger
        ≡ false
  evaluate-retries tg w w' p e h t d =
      let (due, kept) = evaluate_failed tg w p e h in
      rw kept (decide_again tg w w' (recall tg.id p.mem) due t d)
