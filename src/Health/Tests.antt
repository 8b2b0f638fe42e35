-- ===== src/Health/Tests.antt =====
-- Ticks of internal/health/monitor.go over a session of a hook-backed agent.
use arcmux.Prelude.{
  Time, ◌+◌, ◌*◌, ◌≤◌, ◌≡◌, refl, ◌⊎◌, true, false, ◌&&◌, some, none, List, [], ◌∷◌, map, leb,
  second, if◌then◌else◌, arith,
}
use arcmux.Prelude.Text.{Text, codes, text_eq, contains}
use arcmux.Session.{idle, working, stuck, is_idle, Session, new_session, set_state, increment_nudge}
use arcmux.Session.Laws.{IsValid, new_session-IsValid, set_state-IsValid}
use arcmux.Profile.{Profile, hook_backed}
use arcmux.Health.Decision.{hook_idle_decision, idle_quiescence, quiescent_idle}
use arcmux.Health.{World, Monitor, RunState, sets, resets, tick, apply_changes}
use arcmux.Health.Ticks.{sets_within, tick-moves}
use arcmux.Health.Screens.{IsStatic, Ran, begins, ticked}
use arcmux.Health.Loop.{Watch, watch, count_nudges, watch-nudges}
use arcmux.Health.Turns.{sets_idle, Reported, tick-idle_justified}
use arcmux.Health.Idle.{reports_timeout, IsOverdue, tick-idle_resumes, tick-timeout}

abbrev lower : Text → Text
lower = map (λ c. if leb b'A' c && leb c b'Z' then c + 32 else c)

abbrev monitor : Monitor
monitor = record { interval = 10 * second; has_state_dir = true }

abbrev claude : Profile
claude = record {
  class = "claude";
  transport = "tmux";
  exec_driver = "";
  name = "claude";
  start_command = "claude";
  session_start_args = "";
  ready_pattern = [];
  trust_prompt_pattern = [];
  trust_response = "";
  working_indicator = codes "esc to interrupt";
  stuck_text_patterns = codes "Rate limit" ∷ [];
  stuck_timeout = 300 * second;
  idle_timeout = 3600 * second;
  nudge_command = "continue";
  max_nudge_retries = 3;
  hook_type = "claude_hooks";
  hook_dir = "";
}

abbrev at_work : Session
at_work = set_state working (100 * second) (new_session "s1" "one" "claude" "/tmp" second)

abbrev at_rest : Session
at_rest = set_state idle (100 * second) (new_session "s1" "one" "claude" "/tmp" second)

-- A pane with a prompt, whose agent reports a turn that ended after the session's began.
abbrev ended : World
ended = record {
  pane_exists = true;
  captured = some (codes "> ");
  nudge_works = true;
  hook_state = some (
      some (record {
        working = false;
        last_prompt_submit_at = 101 * second;
        last_turn_end_at = 105 * second;
      }));
  checked_at = 110 * second;
  now = 110 * second;
  set_at = 110 * second;
  set_again_at = 110 * second;
}

abbrev unseen : World
unseen = record ended { captured = none }

abbrev before : RunState
before = record { last_output = []; last_change_at = 109 * second }

at_work-IsValid : IsValid at_work
unfolding new_session
at_work-IsValid =
    set_state-IsValid working (100 * second) _
      (new_session-IsValid "s1" "one" "claude" "/tmp" second) (omega arith)

at_rest-IsValid : IsValid at_rest
unfolding new_session
at_rest-IsValid =
    set_state-IsValid idle (100 * second) _ (new_session-IsValid "s1" "one" "claude" "/tmp" second)
      (omega arith)

tick-moves_example :
    sets_within at_work.state (tick lower monitor ended at_work at_work claude before).0.0 ≡ true
tick-moves_example = tick-moves lower monitor ended at_work at_work claude before

tick-idle_resumes_example :
    (tick lower monitor unseen at_rest at_rest claude before).0
    ≡ (sets working (110 * second) ∷ resets ∷ [], none)
unfolding set_state
tick-idle_resumes_example =
    tick-idle_resumes lower monitor unseen at_rest at_rest claude before at_rest-IsValid refl refl

-- The same prompt is seen at three ticks, the last 30 seconds after the first; no hook reports.
abbrev quiet : Time → World
quiet now = record ended {
  hook_state = none;
  checked_at = now;
  now = now;
  set_at = now;
  set_again_at = now;
}

abbrev two_ticks : List World
two_ticks = quiet (120 * second) ∷ quiet (110 * second) ∷ []

abbrev at_start : RunState
at_start = record { last_output = []; last_change_at = 100 * second }

abbrev after_two : RunState
after_two =
    (tick lower monitor (quiet (120 * second)) at_work at_work claude
      (tick lower monitor (quiet (110 * second)) at_rest at_work claude at_start).1).1

two_ticks-Ran : Ran lower monitor claude (100 * second) two_ticks after_two
two_ticks-Ran =
    ticked (quiet (120 * second)) at_work at_work
      (ticked (quiet (110 * second)) at_rest at_work begins (omega arith)) (omega arith)

tick-idle_justified_example :
    (at_work.state ≡ working)
    × (Reported lower (quiet (140 * second)) at_work
        ⊎ IsStatic (100 * second) (quiet (140 * second)) two_ticks)
unfolding set_state new_session tick text_eq contains hook_backed hook_idle_decision sets_idle
    is_idle quiescent_idle idle_quiescence
tick-idle_justified_example =
    tick-idle_justified lower monitor claude (100 * second) two_ticks after_two two_ticks-Ran
      (quiet (140 * second)) at_work at_work (omega arith) refl

-- Idle for two hours at the first snapshot, and given a prompt before the second
abbrev long_after : World
long_after = quiet (7300 * second)

tick-timeout_example :
    (at_rest.state ≡ idle) × (at_work.state ≡ working) × IsOverdue lower long_after claude at_rest
unfolding set_state new_session tick text_eq contains reports_timeout
tick-timeout_example =
    tick-timeout lower monitor long_after at_rest at_work claude before at_rest-IsValid refl

abbrev started : Watch
started = record { session = at_work; run_state = before; events = [] }

-- A screen with the pattern of a stuck agent
abbrev limited : World
limited = record ended { captured = some (codes "Rate limit"); hook_state = none }

watch-nudges_example :
    count_nudges (watch lower 16 monitor claude (limited ∷ limited ∷ limited ∷ []) started).events
    ≤ count_nudges [] + 1
watch-nudges_example =
    watch-nudges lower 16 monitor claude (limited ∷ limited ∷ limited ∷ []) started

-- The one nudge is sent, and the session is left stuck with a count of one.
nudged_once :
    ((watch lower 16 monitor claude (limited ∷ limited ∷ limited ∷ []) started).session.state
      ≡ stuck)
    × (count_nudges
          (watch lower 16 monitor claude (limited ∷ limited ∷ limited ∷ []) started).events
        ≡ 1)
unfolding set_state new_session tick watch text_eq contains count_nudges apply_changes
    increment_nudge quiescent_idle
nudged_once = (refl, refl)
