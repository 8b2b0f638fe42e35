-- ===== src/Delivery/Bounds.antt =====
-- What EnsureIngested does to the pane, however long it has run (internal/delivery/controller.go).
use arcmux.Prelude.{
  Time, ℕ, zero, suc, ◌+◌, ◌≤◌, ◌<◌, ◌≡◌, refl, Bool, true, false, Option, some, none, arith, inl,
  inr, ◌⊎◌, subst, after, if_cases,
}
use arcmux.Prelude.Text.{Text}
use arcmux.Delivery.{
  Scores, Evidence, Assessment, ControllerConfig, Environment, Error, Progress, Step, returns,
  continues, is_ingested, should_submit, pause, press_submit, unhandled, resolved, assessed,
  captured, turn, loop, begin_delivery, deliver,
}

-- A count of the calls of `submit` that a world has seen: each raises it by one, failed or not, and
-- no other call changes it.
pub record IsCount {Score W : Type 0} (env : Environment Score W) (presses : W → ℕ) : Type 0 where
  pub capture_quiet : (w : W) → presses (env.capture w).1 ≡ presses w
  pub assess_quiet : (e : Evidence) (w : W) → presses (env.assess e w).1 ≡ presses w
  pub resolve_quiet : (w : W) → presses (env.resolve w).1 ≡ presses w
  pub sleep_quiet : (d : ℕ) (w : W) → presses (env.sleep d w).1 ≡ presses w
  pub submit_counted : (w : W) → presses (env.submit w).1 ≡ presses w + 1

unfoldable pub world_of : {Score W : Type 0} → Step Score W → W
world_of (returns a e n w) = w
world_of (continues p) = p.world

module _ (F : Scores) where
  open F use {Score, ge, percent}

  pub allowed :
      (c : ControllerConfig Score) (a : Assessment Score) (progressed : Bool) (n : ℕ)
      → should_submit F c a progressed n ≡ true
      → n < c.max_submit_attempts
  unfolding should_submit
  allowed c a progressed n h = ground arith

  pub Step-cases :
      {W : Type 0} (s : Step Score W)
      → ((a : Assessment Score) × (e : Option Error) × (n : ℕ) × (w : W) × (s ≡ returns a e n w))
        ⊎ ((p : Progress Score W) × (s ≡ continues p))
  Step-cases (returns a e n w) = inl (a, e, n, w, refl)
  Step-cases (continues p) = inr (p, refl)

  -- A success is of an assessment that passes `is_ingested`.
  pub Succeeds : {W : Type 0} → ControllerConfig Score → Step Score W → Type 0
  Succeeds c (returns a none n w) = is_ingested F c a ≡ true
  Succeeds c _ = Unit

  module _ {W : Type 0} (env : Environment Score W) (normalize : Text → Text)
      (c : ControllerConfig Score) (evidence : Evidence) (deadline : Time) (presses : W → ℕ)
      (counts : IsCount env presses) (from : ℕ) where
    -- What a turn keeps: the presses since the start are those of the loop's counter.
    abbrev Sound : Step Score W → Type 0
    Sound (returns a none n w) =
        (is_ingested F c a ≡ true) × (presses w ≤ from + c.max_submit_attempts)
    Sound (returns a (some e) n w) = presses w ≤ from + c.max_submit_attempts
    Sound (continues p) =
        (presses p.world ≡ from + p.submit_attempts) × (p.submit_attempts ≤ c.max_submit_attempts)

    pause-Sound :
        (a : Assessment Score) (output : Text) (n : ℕ) (w : W)
        → presses w ≡ from + n
        → n ≤ c.max_submit_attempts
        → Sound (pause F env normalize c evidence deadline a output n w)
    unfolding pause
    pause-Sound a output n w q h =
        if_cases Sound (env.sleep c.retry_interval w).0
          (λ _. (omega (arith, counts.sleep_quiet c.retry_interval w), h))
          (λ _. omega (arith, counts.sleep_quiet c.retry_interval w))

    press_submit-Sound :
        (a : Assessment Score) (output : Text) (n : ℕ) (w : W)
        → presses w ≡ from + n
        → n < c.max_submit_attempts
        → Sound (press_submit F env normalize c evidence deadline a output n w)
    unfolding press_submit
    press_submit-Sound a output n w q h =
        if_cases Sound (env.submit w).0
          (λ _.
            pause-Sound a output (n + 1) (env.submit w).1 (omega (arith, counts.submit_counted w))
              (omega arith))
          (λ _. omega (arith, counts.submit_counted w))

    unhandled-Sound :
        (a : Assessment Score) (output : Text) (p : Progress Score W) (w : W)
        → presses w ≡ from + p.submit_attempts
        → p.submit_attempts ≤ c.max_submit_attempts
        → Sound (unhandled F env normalize c evidence deadline a output p w)
    unfolding unhandled
    unhandled-Sound a output p w q h =
        if_cases Sound (should_submit F c a _ p.submit_attempts)
          (λ t.
            press_submit-Sound a output p.submit_attempts w q (allowed c a _ p.submit_attempts t))
          (λ _.
            if_cases Sound (after (env.now w) deadline) (λ _. omega arith)
              (λ _. pause-Sound a output p.submit_attempts w q h))

    resolved-Sound :
        (r : Option Bool × W) (a : Assessment Score) (output : Text) (p : Progress Score W)
        → presses r.1 ≡ from + p.submit_attempts
        → p.submit_attempts ≤ c.max_submit_attempts
        → Sound (resolved F env normalize c evidence deadline r a output p)
    unfolding resolved
    resolved-Sound (none, w) a output p q h = omega arith
    resolved-Sound (some true, w) a output p q h = pause-Sound a output p.submit_attempts w q h
    resolved-Sound (some false, w) a output p q h = unhandled-Sound a output p w q h

    assessed-Sound :
        (r : Option (Assessment Score) × W) (output : Text) (p : Progress Score W)
        → presses r.1 ≡ from + p.submit_attempts
        → p.submit_attempts ≤ c.max_submit_attempts
        → Sound (assessed F env normalize c evidence deadline r output p)
    unfolding assessed
    assessed-Sound (none, w) output p q h = omega arith
    assessed-Sound (some a, w) output p q h =
        if_cases Sound (is_ingested F c a) (λ t. (t, omega arith))
          (λ _. resolved-Sound (env.resolve w) a output p (omega (arith, counts.resolve_quiet w)) h)

    captured-Sound :
        (r : Option Text × W) (p : Progress Score W)
        → presses r.1 ≡ from + p.submit_attempts
        → p.submit_attempts ≤ c.max_submit_attempts
        → Sound (captured F env normalize c evidence deadline r p)
    unfolding captured
    captured-Sound (none, w) p q h = omega arith
    captured-Sound (some output, w) p q h =
        assessed-Sound _ output p (omega (arith, counts.assess_quiet _ w)) h

    turn-Sound :
        (p : Progress Score W)
        → Sound (continues p)
        → Sound (turn F env normalize c evidence deadline p)
    unfolding turn
    turn-Sound p (q, h) =
        captured-Sound (env.capture p.world) p (omega (arith, counts.capture_quiet p.world)) h

    loop-Sound :
        (fuel : ℕ) (p : Progress Score W)
        → Sound (continues p)
        → Sound (loop F env normalize c evidence deadline fuel p)
    unfolding loop
    loop-Sound zero p h = h
    loop-Sound (suc fuel) p h = elim (Step-cases (turn F env normalize c evidence deadline p)) [
      | inl (a, e, n, w, q) ↦ rw (q, Sound, loop) (subst Sound q (turn-Sound p h))
      | inr (p', q) ↦ rw (q, Sound, loop) (loop-Sound fuel p' (subst Sound q (turn-Sound p h)))
    ]

    Sound-bounds :
        (s : Step Score W)
        → Sound s
        → (presses (world_of s) ≤ from + c.max_submit_attempts) × Succeeds c s
    unfolding Succeeds world_of
    Sound-bounds (returns a none n w) h = (h.1, h.0)
    Sound-bounds (returns a (some e) n w) h = (h, tt)
    Sound-bounds (continues p) h = (omega arith, tt)

  -- However many turns EnsureIngested has run, and whether it has returned or goes on, it has called
  -- `submit` at most `max_submit_attempts` times, calls that failed included; and if it has returned
  -- without an error, its assessment passes `is_ingested`.
  pub deliver-bounded :
      {W : Type 0} (env : Environment Score W) (normalize : Text → Text)
      (c : ControllerConfig Score) (evidence : Evidence) (presses : W → ℕ)
      (counts : IsCount env presses) (fuel : ℕ) (w : W)
      → (presses (world_of (deliver F env normalize c evidence fuel w))
          ≤ presses w + c.max_submit_attempts)
        × Succeeds c (deliver F env normalize c evidence fuel w)
  unfolding deliver begin_delivery
  deliver-bounded env normalize c evidence presses counts fuel w =
      let deadline = env.now w + c.ingestion_timeout in
      let p = begin_delivery F evidence w in
      Sound-bounds env normalize c evidence deadline presses counts (presses w)
        (loop F env normalize c evidence deadline fuel p)
        (loop-Sound env normalize c evidence deadline presses counts (presses w) fuel p
          (omega arith, omega arith))
