-- ===== src/Health/Decision.antt =====
-- The verdicts of internal/health/monitor.go on the end of a turn: screen quiescence and hooks.
use arcmux.Prelude.{
  Time, ℕ, ℤ, pos, ◌*◌, Bool, false, ◌&&◌, ◌||◌, not, Option, some, none, [], ltb, leb_ℤ, is_zero,
  after, second, if◌then◌else◌,
}
use arcmux.Prelude.Text.{Text, text_eq}
use arcmux.Session.{State, is_working}

unfoldable pub idle_quiescence : ℕ → ℕ
idle_quiescence interval = let q = 2 * interval in if ltb q (5 * second) then 5 * second else q

unfoldable pub quiescent_idle : State → Text → Bool → ℤ → ℕ → Bool
quiescent_idle state stuck_match working_visible since_change quiescence =
    if not (is_working state) || (not (text_eq stuck_match []) || working_visible)
    then false
    else leb_ℤ (pos quiescence) since_change

-- The fields of hooks.SessionState that the monitor reads.
pub record HookState : Type 0 where
  pub working : Bool
  pub last_prompt_submit_at : Time
  pub last_turn_end_at : Time

pub data IdleDecision : Type 0 where
  idle_undecided idle_confirmed idle_working : IdleDecision

unfoldable pub hook_idle_decision : Option HookState → Time → IdleDecision
hook_idle_decision none working_since = idle_undecided
hook_idle_decision (some st) working_since =
    if is_zero st.last_prompt_submit_at || is_zero working_since
    then idle_undecided
    else if not st.working && after st.last_turn_end_at working_since
    then idle_confirmed
    else if st.working
    then idle_working
    else idle_undecided

unfoldable pub hook_stale_backstop : ℕ → ℕ
unfolding idle_quiescence
hook_stale_backstop interval = 3 * idle_quiescence interval
