-- ===== src/Delivery/Liveness.antt =====
-- Whether EnsureIngested returns (internal/delivery/controller.go).
use arcmux.Prelude.{
  Time, ℕ, zero, suc, ◌+◌, ◌-◌, ◌≤◌, ◌<◌, ◌≡◌, ◌≢◌, refl, Bool, true, false, Option, some, none,
  arith, inl, inr, subst, after, if_cases,
}
use arcmux.Prelude.Text.{Text}
use arcmux.Delivery.{
  Scores, Evidence, Assessment, ControllerConfig, Environment, Error, Progress, Step, returns,
  continues, is_ingested, should_submit, pause, press_submit, unhandled, resolved, assessed,
  captured, turn, loop, begin_delivery, deliver, answer_of, ensure_ingested,
}
use arcmux.Delivery.Bounds.{Step-cases, allowed}

-- The clock runs on through every call, a sleep takes time, and no blocker is found.
pub record IsCalm {Score W : Type 0} (env : Environment Score W) : Type 0 where
  pub capture_time : (w : W) → env.now w ≤ env.now (env.capture w).1
  pub assess_time : (e : Evidence) (w : W) → env.now w ≤ env.now (env.assess e w).1
  pub resolve_time : (w : W) → env.now w ≤ env.now (env.resolve w).1
  pub submit_time : (w : W) → env.now w ≤ env.now (env.submit w).1
  pub sleep_time : (d : ℕ) (w : W) → env.now w < env.now (env.sleep d w).1
  pub no_blocker : (w : W) → (env.resolve w).0 ≢ some true

module _ (F : Scores) where
  open F use {Score, ge, percent}

  module _ {W : Type 0} (env : Environment Score W) (normalize : Text → Text)
      (c : ControllerConfig Score) (evidence : Evidence) (deadline : Time) (calm : IsCalm env) where
    -- The turns left: one for each submission, and one for each instant up to the deadline.
    abbrev left : ℕ → Time → ℕ
    left attempts now = (c.max_submit_attempts - attempts) + (deadline + 1 - now)

    abbrev Falls : ℕ → Step Score W → Type 0
    Falls m (returns a e n w) = Unit
    Falls m (continues p) = left p.submit_attempts (env.now p.world) < m

    pause-Falls :
        (a : Assessment Score) (output : Text) (n m : ℕ) (w : W)
        → ((t : Time) → env.now w < t → left n t < m)
        → Falls m (pause F env normalize c evidence deadline a output n w)
    unfolding pause
    pause-Falls a output n m w h =
        if_cases (Falls m) (env.sleep c.retry_interval w).0
          (λ _. h _ (calm.sleep_time c.retry_interval w)) (λ _. tt)

    unhandled-Falls :
        (a : Assessment Score) (output : Text) (p : Progress Score W) (m : ℕ) (w : W)
        → left p.submit_attempts (env.now w) ≤ m
        → Falls m (unhandled F env normalize c evidence deadline a output p w)
    unfolding unhandled press_submit
    unhandled-Falls a output p m w h =
        if_cases (Falls m) (should_submit F c a _ p.submit_attempts)
          (λ t.
            let ok = allowed F c a _ p.submit_attempts t in
            if_cases (Falls m) (env.submit w).0
              (λ _.
                pause-Falls a output (p.submit_attempts + 1) m (env.submit w).1
                  (λ t late. omega (arith, calm.submit_time w)))
              (λ _. tt))
          (λ _.
            if_cases (Falls m) (after (env.now w) deadline) (λ _. tt)
              (λ early. pause-Falls a output p.submit_attempts m w (λ t late. ground arith)))

    resolved-Falls :
        (r : Option Bool × W) (a : Assessment Score) (output : Text) (p : Progress Score W) (m : ℕ)
        → r.0 ≢ some true
        → left p.submit_attempts (env.now r.1) ≤ m
        → Falls m (resolved F env normalize c evidence deadline r a output p)
    unfolding resolved
    resolved-Falls (none, w) a output p m n h = tt
    resolved-Falls (some true, w) a output p m n h = absurd (n refl)
    resolved-Falls (some false, w) a output p m n h = unhandled-Falls a output p m w h

    assessed-Falls :
        (r : Option (Assessment Score) × W) (output : Text) (p : Progress Score W) (m : ℕ)
        → left p.submit_attempts (env.now r.1) ≤ m
        → Falls m (assessed F env normalize c evidence deadline r output p)
    unfolding assessed
    assessed-Falls (none, w) output p m h = tt
    assessed-Falls (some a, w) output p m h =
        if_cases (Falls m) (is_ingested F c a) (λ _. tt)
          (λ _.
            resolved-Falls (env.resolve w) a output p m (calm.no_blocker w)
              (omega (arith, calm.resolve_time w)))

    captured-Falls :
        (r : Option Text × W) (p : Progress Score W) (m : ℕ)
        → left p.submit_attempts (env.now r.1) ≤ m
        → Falls m (captured F env normalize c evidence deadline r p)
    unfolding captured
    captured-Falls (none, w) p m h = tt
    captured-Falls (some output, w) p m h =
        assessed-Falls _ output p m (omega (arith, calm.assess_time _ w))

    turn-Falls :
        (p : Progress Score W)
        → Falls
            (left p.submit_attempts (env.now p.world))
            (turn F env normalize c evidence deadline p)
    unfolding turn
    turn-Falls p =
        captured-Falls (env.capture p.world) p _ (omega (arith, calm.capture_time p.world))

    loop_returns :
        (fuel : ℕ) (p : Progress Score W)
        → left p.submit_attempts (env.now p.world) < fuel
        → (r : Assessment Score × Option Error × ℕ) × (answer_of F
              (loop F env normalize c evidence deadline fuel p)
            ≡ some r)
    unfolding loop answer_of
    loop_returns zero p h = absurd (omega arith)
    loop_returns (suc fuel) p h = elim (Step-cases F (turn F env normalize c evidence deadline p)) [
      | inl (a, e, n, w, q) ↦ ((a, e, n), rw (q, loop, answer_of))
      | inr (p', q) ↦
          let below = subst (Falls _) q (turn-Falls p) in
          let (r, s) = loop_returns fuel p' (omega arith) in (r, rw (q, loop, answer_of) s)
    ]

  -- With a clock that runs on and no blocker, EnsureIngested returns: a turn for each submission
  -- allowed and for each instant of the timeout, and two more, are fuel enough.
  pub ensure_ingested_returns :
      {W : Type 0} (env : Environment Score W) (normalize : Text → Text)
      (c : ControllerConfig Score) (evidence : Evidence) (w : W)
      → IsCalm env
      → (r : Assessment Score × Option Error × ℕ) × (ensure_ingested F env normalize c evidence
            (c.max_submit_attempts + c.ingestion_timeout + 2)
            w
          ≡ some r)
  unfolding ensure_ingested deliver begin_delivery
  ensure_ingested_returns env normalize c evidence w calm =
      loop_returns env normalize c evidence (env.now w + c.ingestion_timeout) calm
        (c.max_submit_attempts + c.ingestion_timeout + 2) _ (omega arith)

  -- Nothing fails, the prompt is never seen as taken in, and every turn finds a blocker to answer.
  pub record IsBlocked {W : Type 0} (c : ControllerConfig Score) (env : Environment Score W)
      : Type 0 where
    pub captures : (w : W) → (o : Text) × ((env.capture w).0 ≡ some o)
    pub assesses :
        (e : Evidence) (w : W)
        → (a : Assessment Score) × ((env.assess e w).0 ≡ some a) × (is_ingested F c a ≡ false)
    pub blocks : (w : W) → (env.resolve w).0 ≡ some true
    pub sleeps : (d : ℕ) (w : W) → (env.sleep d w).0 ≡ true

  module _ {W : Type 0} (env : Environment Score W) (normalize : Text → Text)
      (c : ControllerConfig Score) (evidence : Evidence) (deadline : Time)
      (b : IsBlocked c env) where
    abbrev Continues : Step Score W → Type 0
    Continues s = (p : Progress Score W) × (s ≡ continues p)

    resolved-Continues :
        (r : Option Bool × W) (a : Assessment Score) (output : Text) (p : Progress Score W)
        → r.0 ≡ some true
        → Continues (resolved F env normalize c evidence deadline r a output p)
    unfolding resolved pause
    resolved-Continues (o, w) a output p h =
        rw (h, resolved) (rw (b.sleeps c.retry_interval w) (_, refl))

    assessed-Continues :
        (r : Option (Assessment Score) × W) (output : Text) (p : Progress Score W)
        (a : Assessment Score)
        → r.0 ≡ some a
        → is_ingested F c a ≡ false
        → Continues (assessed F env normalize c evidence deadline r output p)
    unfolding assessed
    assessed-Continues (o, w) output p a h k =
        rw (h, assessed) (rw k (resolved-Continues (env.resolve w) a output p (b.blocks w)))

    captured-Continues :
        (r : Option Text × W) (p : Progress Score W) (o : Text)
        → r.0 ≡ some o
        → Continues (captured F env normalize c evidence deadline r p)
    unfolding captured
    captured-Continues (s, w) p o h =
        let e : Evidence = record evidence { after_output = o; attempt = p.submit_attempts } in
        let (a, q, k) = b.assesses e w in
        rw (h, captured) (assessed-Continues (env.assess e w) o p a q k)

    loop_spins :
        (fuel : ℕ) (p : Progress Score W)
        → answer_of F (loop F env normalize c evidence deadline fuel p) ≡ none
    unfolding loop turn answer_of
    loop_spins zero p = refl
    loop_spins (suc fuel) p =
        let (o, q) = b.captures p.world in
        let (p', k) = captured-Continues (env.capture p.world) p o q in
        rw (k, loop, answer_of) (loop_spins fuel p')

  -- While every turn finds a blocker to answer, EnsureIngested goes on for ever, whatever its
  -- timeout: the deadline is looked at only in a turn that found none.
  pub ensure_ingested_spins :
      {W : Type 0} (env : Environment Score W) (normalize : Text → Text)
      (c : ControllerConfig Score) (evidence : Evidence) (fuel : ℕ) (w : W)
      → IsBlocked c env
      → ensure_ingested F env normalize c evidence fuel w ≡ none
  unfolding ensure_ingested deliver begin_delivery
  ensure_ingested_spins env normalize c evidence fuel w b =
      loop_spins env normalize c evidence (env.now w + c.ingestion_timeout) b fuel _
