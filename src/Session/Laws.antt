-- ===== src/Session/Laws.antt =====
-- What every history of calls keeps of a session (internal/session/state.go).
use arcmux.Prelude.{
  Time, ℕ, ◌+◌, ◌≤◌, ◌≡◌, refl, Bool, true, false, Option, some, none, List, [], ◌∷◌, arith, String,
}
use arcmux.Session.{
  State, is_idle, is_working, Session, new_session, set_state, Call, resets_nudge, increments_nudge,
  call, calls,
}

abbrev pub is_some {ℓ} : {A : Type ℓ} → Option A → Bool
is_some none = false
is_some (some a) = true

abbrev pub NotAfter : Option Time → Time → Type 0
NotAfter none now = Unit
NotAfter (some t) now = t ≤ now

-- The two instants stand exactly in the states that they date, and not after the last activity.
pub record IsValid (s : Session) : Type 0 where
  pub idle_dated : is_some s.idle_since ≡ is_idle s.state
  pub working_dated : is_some s.working_since ≡ is_working s.state
  pub idle_ordered : NotAfter s.idle_since s.last_activity_at
  pub working_ordered : NotAfter s.working_since s.last_activity_at
  pub started_ordered : s.started_at ≤ s.last_activity_at

pub new_session-IsValid :
    (id name agent cwd : String) (now : Time) → IsValid (new_session id name agent cwd now)
unfolding new_session is_idle is_working
new_session-IsValid id name agent cwd now = ground arith

pub set_state-IsValid :
    (state : State) (now : Time) (s : Session)
    → IsValid s
    → s.last_activity_at ≤ now
    → IsValid (set_state state now s)
unfolding set_state
set_state-IsValid state now s v h = ground arith

NotAfter-mono : (o : Option Time) (a b : Time) → a ≤ b → NotAfter o a → NotAfter o b
NotAfter-mono none a b h k = tt
NotAfter-mono (some t) a b h k = omega arith

call-IsValid :
    (now : Time) (c : Call) (s : Session)
    → IsValid s
    → s.last_activity_at ≤ now
    → IsValid (call now c s)
unfolding call
call-IsValid now (Call.sets_state state) s v h = set_state-IsValid state now s v h
call-IsValid now c s v h = ground (
  arith,
  NotAfter-mono s.idle_since s.last_activity_at now,
  NotAfter-mono s.working_since s.last_activity_at now,
)

call-ordered :
    (now : Time) (c : Call) (s : Session)
    → s.last_activity_at ≤ now
    → (call now c s).last_activity_at ≤ now
unfolding call
call-ordered now (Call.sets_state state) s h = omega arith
call-ordered now c s h = ground arith

-- The clock does not run backwards over the calls.
abbrev pub IsOrdered : Time → List (Time × Call) → Type 0
IsOrdered from [] = Unit
IsOrdered from ((now, c) ∷ cs) = (from ≤ now) × IsOrdered now cs

calls-IsValid_from :
    (from : Time) (cs : List (Time × Call)) (s : Session)
    → IsValid s
    → s.last_activity_at ≤ from
    → IsOrdered from cs
    → IsValid (calls cs s)
unfolding calls
calls-IsValid_from from [] s v h o = v
calls-IsValid_from from ((now, c) ∷ cs) s v h o =
    calls-IsValid_from now cs (call now c s) (call-IsValid now c s v (omega arith))
      (call-ordered now c s (omega arith)) o.1

-- From a new session, any calls under a clock that does not run backwards give a session whose
-- IdleSince is set exactly when it is idle, whose WorkingSince is set exactly when it is working,
-- and in which neither of these, nor StartedAt, is after LastActivityAt.
pub calls-IsValid :
    (id name agent cwd : String) (now : Time) (cs : List (Time × Call))
    → IsOrdered now cs
    → IsValid (calls cs (new_session id name agent cwd now))
unfolding new_session
calls-IsValid id name agent cwd now cs o =
    calls-IsValid_from now cs (new_session id name agent cwd now)
      (new_session-IsValid id name agent cwd now) (omega arith) o

call-private :
    (now : Time) (c : Call) (s : Session) → s.is_private ≡ true → (call now c s).is_private ≡ true
unfolding call
call-private now (Call.sets_state state) s h = h
call-private now c s h = ground arith

-- A private session stays private, whatever is called on it.
pub calls-private :
    (cs : List (Time × Call)) (s : Session) → s.is_private ≡ true → (calls cs s).is_private ≡ true
unfolding calls
calls-private [] s h = h
calls-private ((now, c) ∷ cs) s h = calls-private cs (call now c s) (call-private now c s h)

-- The nudges counted since the last reset, on top of those counted before.
abbrev pub nudges : ℕ → List (Time × Call) → ℕ
nudges n [] = n
nudges n ((now, increments_nudge) ∷ cs) = nudges (n + 1) cs
nudges n ((now, resets_nudge) ∷ cs) = nudges 0 cs
nudges n (_ ∷ cs) = nudges n cs

-- After any calls, the nudge count is the number of increments since the last reset, with the
-- count before the calls added when there was no reset.
pub calls-nudges :
    (cs : List (Time × Call)) (s : Session) → (calls cs s).nudge_count ≡ nudges s.nudge_count cs
unfolding calls call
calls-nudges [] s = refl
calls-nudges ((now, increments_nudge) ∷ cs) s = calls-nudges cs (call now increments_nudge s)
calls-nudges ((now, resets_nudge) ∷ cs) s = calls-nudges cs (call now resets_nudge s)
calls-nudges ((now, c) ∷ cs) s = calls-nudges cs (call now c s)
