-- ===== src/Delivery/Tests.antt =====
-- Deliveries into two panes (internal/delivery/controller.go): one that takes the prompt in at the
-- second look, and one that shows a blocker for ever.
use arcmux.Prelude.{
  ℕ, suc, ◌+◌, ◌≤◌, ◌≡◌, refl, true, false, Bool, String, Option, some, none, List, [], ◌∷◌, map,
  leb, ltb, ◌==◌, ◌&&◌, ◌||◌, not, arith, if◌then◌else◌,
}
use arcmux.Prelude.Text.{Text, codes, text_eq, trim, fields_from}
use arcmux.Hooks.Store.{SessionState, zero_state}
use arcmux.Delivery.Heuristic.{
  heuristic_assess, prompt_retained, prompt_visible, is_blocked_screen, is_working_screen,
  is_changed_screen,
}
use arcmux.Delivery.Judges.{typesafe_judge, heuristic_judge, hooks_judge, new_judge, assess}
use arcmux.Delivery.Typesafe.{Verdict, document_of, typesafe_assess}
use arcmux.Delivery.Privacy.{Client, assess-local}
use arcmux.Delivery.Verdicts.{
  heuristic_assess-accepted, heuristic_assess-submitted, hooks_judge-accepted, hooks_judge-deferred,
  new_judge-offline,
}
use arcmux.Delivery.{
  Scores, ingested, pending_submit, Evidence, Assessment, ControllerConfig, Environment, Error,
  is_ingested, should_submit, turn, deliver, ensure_ingested,
}
use arcmux.Delivery.Bounds.{IsCount, world_of, Succeeds, deliver-bounded}
use arcmux.Delivery.Liveness.{IsCalm, IsBlocked, ensure_ingested_returns, ensure_ingested_spins}

abbrev percents : Scores
percents = record { Score = ℕ; ge = λ a b. leb b a; lt = ltb; percent = λ n. n }

abbrev config : ControllerConfig ℕ
config = record {
  ingestion_timeout = 20;
  retry_interval = 2;
  max_submit_attempts = 3;
  min_confidence = 70;
}

abbrev evidence : Evidence
evidence = record {
  agent = "claude";
  prompt = codes "ship it";
  before_output = [];
  after_output = [];
  working_indicator = [];
  attempt = 0;
  local_only = false;
  session_id = "s1";
  delivery_started_at = 0;
}

abbrev pending : Assessment ℕ
pending = record {
  state = pending_submit;
  confidence = 84;
  work_started = 18;
  enter_helpful = 91;
  source = "heuristic";
  model = "";
}

abbrev taken : Assessment ℕ
taken = record {
  state = ingested;
  confidence = 90;
  work_started = 96;
  enter_helpful = 5;
  source = "heuristic";
  model = "";
}

-- The world is the clock. The prompt waits for an Enter until instant 2.
abbrev pane : Environment ℕ ℕ
pane = record {
  capture = λ w. (some (codes "ship it"), w);
  assess = λ e w. (some (if ltb w 2 then pending else taken), w);
  resolve = λ w. (some false, w);
  submit = λ w. (true, w);
  sleep = λ d w. (true, suc w + d);
  now = λ w. w;
}

abbrev blocked_pane : Environment ℕ ℕ
blocked_pane = record pane { assess = λ e w. (some pending, w); resolve = λ w. (some true, w) }

abbrev no_error : Option Error
no_error = none

abbrev same : Text → Text
same t = t

pane-IsCalm : IsCalm pane
pane-IsCalm = record {
  capture_time = λ w. omega arith;
  assess_time = λ e w. omega arith;
  resolve_time = λ w. omega arith;
  submit_time = λ w. omega arith;
  sleep_time = λ d w. omega arith;
  no_blocker = λ w h. cc;
}

blocked_pane-IsBlocked : IsBlocked percents config blocked_pane
unfolding is_ingested
blocked_pane-IsBlocked = record {
  captures = λ w. (codes "ship it", refl);
  assesses = λ e w. (pending, refl, refl);
  blocks = λ w. refl;
  sleeps = λ d w. refl;
}

-- The clock, and the presses of Enter so far. No prompt is ever taken in.
abbrev counting_pane : Environment ℕ (ℕ × ℕ)
counting_pane = record {
  capture = λ w. (some (codes "ship it"), w);
  assess = λ e w. (some pending, w);
  resolve = λ w. (some false, w);
  submit = λ w. (true, (w.0, w.1 + 1));
  sleep = λ d w. (true, (w.0 + 1 + d, w.1));
  now = λ w. w.0;
}

abbrev presses : ℕ × ℕ → ℕ
presses w = w.1

counting_pane-IsCount : IsCount counting_pane presses
counting_pane-IsCount = record {
  capture_quiet = λ w. refl;
  assess_quiet = λ e w. refl;
  resolve_quiet = λ w. refl;
  sleep_quiet = λ d w. refl;
  submit_counted = λ w. refl;
}

deliver-bounded_example :
    (presses (world_of (deliver percents counting_pane same config evidence 25 (0, 0))) ≤ 0 + 3)
    × Succeeds percents config (deliver percents counting_pane same config evidence 25 (0, 0))
deliver-bounded_example =
    deliver-bounded percents counting_pane same config evidence presses counting_pane-IsCount 25
      (0, 0)

-- All three submissions are made, and then the deadline passes.
presses_all : world_of (deliver percents counting_pane same config evidence 25 (0, 0)) ≡ (21, 3)
unfolding deliver turn is_ingested should_submit world_of text_eq
presses_all = refl

ensure_ingested_returns_example :
    (r : Assessment ℕ × Option Error × ℕ) × (ensure_ingested percents pane same config evidence 25 0
      ≡ some r)
ensure_ingested_returns_example =
    ensure_ingested_returns percents pane same config evidence 0 pane-IsCalm

ensure_ingested_spins_example :
    ensure_ingested percents blocked_pane same config evidence 1000 0 ≡ none
ensure_ingested_spins_example =
    ensure_ingested_spins percents blocked_pane same config evidence 1000 0 blocked_pane-IsBlocked

abbrev is_blank : ℕ → Bool
is_blank c = c == 32 || c == 10

abbrev lower : Text → Text
lower = map (λ c. if leb b'A' c && leb c b'Z' then c + 32 else c)

abbrev words : Text → List Text
words = fields_from is_blank []

abbrev shown : Evidence
shown = record evidence {
  prompt = codes "Fix the failing monitor test";
  after_output = codes "> fix the failing  monitor test";
}

heuristic_assess-accepted_example :
    is_ingested percents config (heuristic_assess lower (trim is_blank) words percents shown) ≡ (
      prompt_retained lower (trim is_blank) words percents shown
      || not (is_blocked_screen lower (trim is_blank) words percents shown)
        && (is_working_screen lower (trim is_blank) words percents shown
            || not (prompt_visible lower (trim is_blank) words percents shown)
              && is_changed_screen lower (trim is_blank) words percents shown))
heuristic_assess-accepted_example =
    heuristic_assess-accepted percents (λ a b. refl) lower (trim is_blank) words config shown refl

heuristic_assess-submitted_example :
    should_submit percents config
      (heuristic_assess lower (trim is_blank) words percents shown)
      false
      2
    ≡ (not (prompt_retained lower (trim is_blank) words percents shown)
        && (is_blocked_screen lower (trim is_blank) words percents shown
            || not (is_working_screen lower (trim is_blank) words percents shown)
              && (prompt_visible lower (trim is_blank) words percents shown
                  || not (is_changed_screen lower (trim is_blank) words percents shown)
                    && (2 == 0 && not false))))
heuristic_assess-submitted_example =
    heuristic_assess-submitted percents (λ a b. refl) lower (trim is_blank) words config shown false
      2 refl (omega arith)

-- The hook state of a session that took a prompt in at instant 12
abbrev reported : SessionState
reported = record zero_state { session_id = "s1"; working = true; last_prompt_submit_at = 12 }

abbrev read : String → String → Option (Option SessionState)
read dir id = some (some reported)

-- A typesafe judge that sends the evidence whatever it is, and hears nothing
abbrev silent : Evidence → Verdict ℕ
silent e = (document_of e ∷ [], none)

abbrev waiting : Evidence → Assessment ℕ
waiting e = pending

hooks_judge-accepted_example :
    (a : Assessment ℕ) × (assess percents silent waiting read
        (hooks_judge "sessions" heuristic_judge)
        (record evidence { delivery_started_at = 10 })
      ≡ ([], some a))
    × (is_ingested percents config a ≡ true)
unfolding zero_state
hooks_judge-accepted_example =
    hooks_judge-accepted percents silent waiting read config "sessions" heuristic_judge
      (record evidence { delivery_started_at = 10 }) reported refl (λ h. cc) (λ h. cc) refl
      (omega arith)

hooks_judge-deferred_example :
    assess percents silent waiting read
      (hooks_judge "sessions" heuristic_judge)
      (record evidence { delivery_started_at = 20 })
    ≡ assess percents silent waiting read heuristic_judge
        (record evidence { delivery_started_at = 20 })
unfolding zero_state
hooks_judge-deferred_example =
    hooks_judge-deferred percents silent waiting read "sessions" heuristic_judge
      (record evidence { delivery_started_at = 20 }) (λ st h. grind arith)

new_judge-offline_example :
    (assess percents silent waiting read (hooks_judge "sessions" heuristic_judge) evidence).0 ≡ []
unfolding new_judge
new_judge-offline_example =
    new_judge-offline percents (record { kind = "hooks"; session_state_dir = "sessions" })
      (hooks_judge "sessions" heuristic_judge) silent waiting read evidence refl refl

-- A service that takes every prompt for taken in
abbrev eager : Client percents
eager = some (λ d. some (record {
  model = "speed";
  responses =
      record { key = "delivery_state"; probability = 0; chosen = "ingested"; confidence = 99 } ∷ [];
}))

abbrev private_evidence : Evidence
private_evidence = record evidence { local_only = true }

assess-local_example :
    ((assess percents
        (typesafe_assess percents eager waiting)
        waiting
        read
        (hooks_judge "sessions" typesafe_judge)
        private_evidence).0
      ≡ [])
    × (assess percents
          (typesafe_assess percents eager waiting)
          waiting
          read
          (hooks_judge "sessions" typesafe_judge)
          private_evidence
        ≡ assess percents
            (typesafe_assess percents none waiting)
            waiting
            read
            (hooks_judge "sessions" typesafe_judge)
            private_evidence)
assess-local_example =
    assess-local percents eager waiting read (hooks_judge "sessions" typesafe_judge)
      private_evidence refl

-- The prompt waits in the composer, so Enter is pressed.
waits : (heuristic_assess lower (trim is_blank) words percents shown).state ≡ pending_submit
unfolding heuristic_assess prompt_retained
    arcmux.Delivery.Heuristic.contains_standalone_composer_marker arcmux.Prelude.Text.split
    arcmux.Prelude.Text.text_eq arcmux.Prelude.Text.trim_right arcmux.Prelude.Text.trim_left
    arcmux.Delivery.Heuristic.prompt_occurrence_count arcmux.Prelude.Text.join fields_from
    arcmux.Prelude.Text.has_prefix
    arcmux.Delivery.Heuristic.contains_fresh_composer_after_latest_prompt is_blocked_screen
    arcmux.Delivery.Heuristic.contains_blocker_outside_prompt is_working_screen prompt_visible
waits = refl
