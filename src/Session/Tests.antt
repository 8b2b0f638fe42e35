-- ===== src/Session/Tests.antt =====
-- Runs of the calls of internal/session/state.go.
use arcmux.Prelude.{Time, ◌≡◌, refl, true, List, [], ◌∷◌, arith}
use arcmux.Session.{
  idle, working, Session, new_session, mark_private, Call, sets_state, increments_nudge,
  resets_nudge, sets_pid, call, calls,
}
use arcmux.Session.Laws.{IsValid, calls-IsValid, calls-private}

abbrev fresh : Session
fresh = new_session "s1" "one" "claude" "/tmp" 10

abbrev day : List (Time × Call)
day =
    (12, sets_state working)
    ∷ (15, increments_nudge)
    ∷ (20, sets_state idle)
    ∷ (21, resets_nudge)
    ∷ (22, increments_nudge)
    ∷ (23, sets_pid 0)
    ∷ []

calls-IsValid_example : IsValid (calls day fresh)
calls-IsValid_example =
    calls-IsValid "s1" "one" "claude" "/tmp" 10 day
      (omega arith, (omega arith, (omega arith, (omega arith, (omega arith, (omega arith, tt))))))

calls-private_example : (calls day (mark_private fresh)).is_private ≡ true
unfolding mark_private
calls-private_example = calls-private day (mark_private fresh) refl

idle_at_end : (calls day fresh).state ≡ idle
unfolding calls new_session call
idle_at_end = refl
