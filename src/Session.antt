-- ===== src/Session.antt =====
-- The state of one agent session, internal/session/state.go. A method that mutates `*Session`
-- returns the new record, and takes the instant that it reads from the clock; each method runs
-- under the session's lock, so the methods of one session are a sequence.
pub mod Laws
mod Tests
use arcmux.Prelude.{
  Time, ℕ, String, Bool, true, false, Option, some, none, List, [], ◌∷◌, ◌+◌, if◌then◌else◌,
}

pub data State : Type 0 where
  starting handshaking idle working stuck escalated exited failed : State

pub State-discrete : Discrete State
State-discrete = hlevel

-- state == StateIdle
unfoldable pub is_idle : State → Bool
is_idle idle = true
is_idle _ = false

-- state == StateWorking
unfoldable pub is_working : State → Bool
is_working working = true
is_working _ = false

-- The `private` field is `is_private` here. A nil map and an empty one are both `[]`.
pub record Session : Type 0 where
  pub id : String
  pub name : String
  pub agent : String
  pub cwd : String
  pub transport : String
  pub tmux_session_name : String
  pub tmux_target : String
  pub current_command : String
  pub backend_session_id : String
  pub pid : ℕ
  pub state : State
  pub health : String
  pub started_at : Time
  pub last_activity_at : Time
  pub idle_since : Option Time
  pub working_since : Option Time
  pub nudge_count : ℕ
  pub env : List (String × String)
  pub auto_close : Bool
  pub owner_id : String
  pub is_private : Bool

unfoldable pub new_session : String → String → String → String → Time → Session
new_session id name agent cwd now = record {
  id = id;
  name = name;
  agent = agent;
  cwd = cwd;
  transport = "";
  tmux_session_name = "";
  tmux_target = "";
  current_command = "";
  backend_session_id = "";
  pid = 0;
  state = starting;
  health = "healthy";
  started_at = now;
  last_activity_at = now;
  idle_since = none;
  working_since = none;
  nudge_count = 0;
  env = [];
  auto_close = false;
  owner_id = "";
  is_private = false;
}

unfoldable pub set_state : State → Time → Session → Session
unfolding is_idle is_working
set_state state now s = record s {
  state = state;
  last_activity_at = now;
  idle_since = if is_idle state then some now else none;
  working_since = if is_working state then some now else none;
}

unfoldable pub record_activity : Time → Session → Session
record_activity now s = record s { last_activity_at = now }

-- The Go method also returns the new count, which is the field of the result.
unfoldable pub increment_nudge : Session → Session
increment_nudge s = record s { nudge_count = s.nudge_count + 1 }

unfoldable pub reset_nudge : Session → Session
reset_nudge s = record s { nudge_count = 0 }

unfoldable pub set_transport : String → Session → Session
set_transport t s = record s { transport = t }

unfoldable pub set_pid : ℕ → Session → Session
set_pid pid s = record s { pid = pid }

unfoldable pub set_current_command : String → Session → Session
set_current_command command s = record s { current_command = command }

unfoldable pub set_backend_session_id : String → Session → Session
set_backend_session_id id s = record s { backend_session_id = id }

unfoldable pub set_health : String → Session → Session
set_health health s = record s { health = health }

unfoldable pub set_auto_close : Bool → Session → Session
set_auto_close v s = record s { auto_close = v }

unfoldable pub set_owner_id : String → Session → Session
set_owner_id id s = record s { owner_id = id }

unfoldable pub mark_private : Session → Session
mark_private s = record s { is_private = true }

-- The entries are copied, so the caller's map and the session's share nothing.
unfoldable pub set_env : List (String × String) → Session → Session
set_env env s = record s { env = env }

-- The calls that the daemon makes on a session, each with the instant of the call.
pub data Call : Type 0 where
  sets_state : State → Call
  records_activity increments_nudge resets_nudge marks_private : Call
  sets_transport sets_current_command sets_backend_session_id sets_health sets_owner_id :
      String → Call
  sets_pid : ℕ → Call
  sets_auto_close : Bool → Call
  sets_env : List (String × String) → Call

unfoldable pub call : Time → Call → Session → Session
unfolding set_state record_activity increment_nudge reset_nudge set_transport set_pid
    set_current_command set_backend_session_id set_health set_auto_close set_owner_id mark_private
    set_env
call now (sets_state state) s = set_state state now s
call now records_activity s = record_activity now s
call now increments_nudge s = increment_nudge s
call now resets_nudge s = reset_nudge s
call now marks_private s = mark_private s
call now (sets_transport t) s = set_transport t s
call now (sets_current_command c) s = set_current_command c s
call now (sets_backend_session_id i) s = set_backend_session_id i s
call now (sets_health h) s = set_health h s
call now (sets_owner_id i) s = set_owner_id i s
call now (sets_pid p) s = set_pid p s
call now (sets_auto_close v) s = set_auto_close v s
call now (sets_env e) s = set_env e s

unfoldable pub calls : List (Time × Call) → Session → Session
calls [] s = s
calls ((now, c) ∷ cs) s = calls cs (call now c s)
