-- ===== src/Delivery.antt =====
-- Prompt delivery, internal/delivery/controller.go and the options of judge.go: the loop that
-- watches a pane until the agent has taken a prompt in. The runtime of the pane, the judge and the
-- clock are an `Environment` over a world of its own; probabilities are a `Scores`, since a judge may
-- answer with any float64.
pub mod Bounds
pub mod Liveness
pub mod Heuristic
pub mod Judges
pub mod Typesafe
pub mod Privacy
pub mod Verdicts
mod Tests
use arcmux.Prelude.{
  Time, ℕ, zero, suc, ◌+◌, ◌*◌, String, str_eq, Bool, true, false, ◌&&◌, ◌||◌, not, Option, some,
  none, [], leb, ltb, ◌==◌, after, second, if◌then◌else◌,
}
use arcmux.Prelude.Text.{Text, text_eq, fields_from, join}

-- float64 scores: `ge` is `>=`, `lt` is `<` and `percent n` the constant n / 100.
pub record Scores : Type 1 where
  pub Score : Type 0
  pub ge : Score → Score → Bool
  pub lt : Score → Score → Bool
  pub percent : ℕ → Score

-- `other` is a string that is none of the four.
pub data State : Type 0 where
  ingested pending_submit blocked unclear : State
  other : String → State

pub record Evidence : Type 0 where
  pub agent : String
  pub prompt : Text
  pub before_output : Text
  pub after_output : Text
  pub working_indicator : Text
  pub attempt : ℕ
  pub local_only : Bool
  pub session_id : String
  pub delivery_started_at : Time

pub record Assessment (Score : Type 0) : Type 0 where
  pub state : State
  pub confidence : Score
  pub work_started : Score
  pub enter_helpful : Score
  pub source : String
  pub model : String

pub record ControllerConfig (Score : Type 0) : Type 0 where
  pub ingestion_timeout : ℕ
  pub retry_interval : ℕ
  pub max_submit_attempts : ℕ
  pub min_confidence : Score

-- What the loop calls. An error is `none` or `false`. `sleep` returns early, with an error, when
-- the context is cancelled.
pub record Environment (Score W : Type 0) : Type 0 where
  pub capture : W → Option Text × W
  pub assess : Evidence → W → Option (Assessment Score) × W
  pub resolve : W → Option Bool × W
  pub submit : W → Bool × W
  pub sleep : ℕ → W → Bool × W
  pub now : W → Time

pub data Error : Type 0 where
  capture_failed assess_failed resolve_failed submit_failed cancelled not_ingested : Error

-- The variables of the loop, with the world.
pub record Progress (Score W : Type 0) : Type 0 where
  pub last_output : Text
  pub submit_attempts : ℕ
  pub last_assessment : Assessment Score
  pub world : W

-- One turn of the loop returns, or goes on. The return has the assessment, the error, the number
-- of submissions that went through, and the world.
pub data Step (Score W : Type 0) : Type 0 where
  returns : Assessment Score → Option Error → ℕ → W → Step Score W
  continues : Progress Score W → Step Score W

unfoldable pub default_max_submit_attempts : ℕ
default_max_submit_attempts = 3

module _ (F : Scores) where
  open F use {Score, ge, percent}

  -- NewController's configuration. A duration or a count that is not positive is 0 here.
  unfoldable pub new_config : ControllerConfig Score → ControllerConfig Score
  unfolding default_max_submit_attempts
  new_config c = record {
    ingestion_timeout = if c.ingestion_timeout == 0 then 20 * second else c.ingestion_timeout;
    retry_interval = if c.retry_interval == 0 then 1_500_000_000 else c.retry_interval;
    max_submit_attempts =
        if c.max_submit_attempts == 0 then default_max_submit_attempts else c.max_submit_attempts;
    min_confidence = if ge (percent 0) c.min_confidence then percent 70 else c.min_confidence;
  }

  unfoldable pub is_ingested_state : State → Bool
  is_ingested_state ingested = true
  is_ingested_state _ = false

  unfoldable pub is_ingested : ControllerConfig Score → Assessment Score → Bool
  unfolding is_ingested_state
  is_ingested c a =
      ge a.work_started (percent 88)
      || (is_ingested_state a.state && ge a.confidence c.min_confidence
          || is_ingested_state a.state
            && (ge a.confidence (percent 40) && ge a.work_started (percent 50)))

  unfoldable pub submits_in : State → ControllerConfig Score → Assessment Score → Bool → ℕ → Bool
  submits_in pending_submit c a progressed attempts =
      ge a.confidence c.min_confidence || ge a.enter_helpful (percent 75)
  submits_in blocked c a progressed attempts = ge a.enter_helpful (percent 80)
  submits_in unclear c a progressed attempts =
      ge a.enter_helpful (percent 90) || attempts == 0 && not progressed
  submits_in ingested c a progressed attempts = false
  submits_in (other s) c a progressed attempts = false

  unfoldable pub should_submit : ControllerConfig Score → Assessment Score → Bool → ℕ → Bool
  unfolding submits_in
  should_submit c a progressed attempts =
      if leb c.max_submit_attempts attempts
      then false
      else submits_in a.state c a progressed attempts

  module _ {W : Type 0} (env : Environment Score W) (normalize : Text → Text)
      (c : ControllerConfig Score) (evidence : Evidence) (deadline : Time) where
    -- sleepWithContext and the next turn
    unfoldable pub pause : Assessment Score → Text → ℕ → W → Step Score W
    pause a output attempts w =
        let (woke, w') = env.sleep c.retry_interval w in
        if woke
        then continues (record {
          last_output = output;
          submit_attempts = attempts;
          last_assessment = a;
          world = w';
        })
        else returns a (some cancelled) attempts w'

    unfoldable pub press_submit : Assessment Score → Text → ℕ → W → Step Score W
    unfolding pause
    press_submit a output attempts w =
        let (sent, w') = env.submit w in
        if sent
        then pause a output (attempts + 1) w'
        else returns a (some submit_failed) attempts w'

    unfoldable pub unhandled : Assessment Score → Text → Progress Score W → W → Step Score W
    unfolding press_submit pause
    unhandled a output p w =
        if should_submit c a (not (text_eq (normalize p.last_output) (normalize output)))
          p.submit_attempts
        then press_submit a output p.submit_attempts w
        else if after (env.now w) deadline
        then returns a (some not_ingested) p.submit_attempts w
        else pause a output p.submit_attempts w

    unfoldable pub resolved :
        Option Bool × W → Assessment Score → Text → Progress Score W → Step Score W
    unfolding unhandled pause
    resolved (none, w) a output p = returns a (some resolve_failed) p.submit_attempts w
    resolved (some true, w) a output p = pause a output p.submit_attempts w
    resolved (some false, w) a output p = unhandled a output p w

    unfoldable pub assessed : Option (Assessment Score) × W → Text → Progress Score W → Step Score W
    unfolding resolved
    assessed (none, w) output p = returns p.last_assessment (some assess_failed) p.submit_attempts w
    assessed (some a, w) output p =
        if is_ingested c a
        then returns a none p.submit_attempts w
        else resolved (env.resolve w) a output p

    unfoldable pub captured : Option Text × W → Progress Score W → Step Score W
    unfolding assessed
    captured (none, w) p = returns p.last_assessment (some capture_failed) p.submit_attempts w
    captured (some output, w) p =
        assessed
          (env.assess (record evidence { after_output = output; attempt = p.submit_attempts }) w)
          output p

    -- One turn of the loop of EnsureIngested
    unfoldable pub turn : Progress Score W → Step Score W
    unfolding captured
    turn p = captured (env.capture p.world) p

    -- The loop after at most `fuel` turns: it has returned, or goes on from there
    unfoldable pub loop : ℕ → Progress Score W → Step Score W
    loop zero p = continues p
    loop (suc fuel) p = elim (turn p) [
      | returns a e n w ↦ returns a e n w
      | continues p' ↦ loop fuel p'
    ]

  -- The variables before the first turn
  unfoldable pub begin_delivery : {W : Type 0} → Evidence → W → Progress Score W
  begin_delivery evidence w = record {
    last_output = evidence.before_output;
    submit_attempts = 0;
    last_assessment = record {
      state = unclear;
      confidence = percent 0;
      work_started = percent 0;
      enter_helpful = percent 0;
      source = "none";
      model = "";
    };
    world = w;
  }

  -- EnsureIngested on a controller that has a judge, after at most `fuel` turns. `normalize` is
  -- normalizeScreen, which Delivery.Heuristic has.
  unfoldable pub deliver :
      {W : Type 0}
      → Environment Score W
      → (Text → Text)
      → ControllerConfig Score
      → Evidence
      → ℕ
      → W
      → Step Score W
  unfolding loop begin_delivery
  deliver env normalize c evidence fuel w =
      loop env normalize c evidence (env.now w + c.ingestion_timeout) fuel
        (begin_delivery evidence w)

  -- What has been returned; `none` is the fuel running out.
  unfoldable pub answer_of :
      {W : Type 0} → Step Score W → Option (Assessment Score × Option Error × ℕ)
  answer_of (returns a e n w) = some (a, e, n)
  answer_of (continues p) = none

  -- The answer of EnsureIngested
  unfoldable pub ensure_ingested :
      {W : Type 0}
      → Environment Score W
      → (Text → Text)
      → ControllerConfig Score
      → Evidence
      → ℕ
      → W
      → Option (Assessment Score × Option Error × ℕ)
  unfolding deliver answer_of
  ensure_ingested env normalize c evidence fuel w =
      answer_of (deliver env normalize c evidence fuel w)
