-- ===== src/Hooks/Store.antt =====
-- The file that holds the hook state of a session, and its locked read-modify-write
-- (internal/hooks/sessionstate.go).
use arcmux.Prelude.{
  Time, ℕ, ◌+◌, String, str_eq, Bool, false, ◌&&◌, ◌||◌, not, Option, some, none, [], all, leb,
  ◌==◌, if◌then◌else◌,
}
use arcmux.Prelude.Text.{codes, text_eq}
use arcmux.Hooks.Contract.{TurnContract}

pub data Event : Type 0 where
  prompt_submit tool_start tool_end turn_end notification : Event

-- The event names of `arcmux hook`; `none` is an unknown one.
unfoldable pub canonical_event : String → Option Event
canonical_event s =
    if str_eq s "prompt_submit"
    then some prompt_submit
    else if str_eq s "tool_start"
    then some tool_start
    else if str_eq s "tool_end"
    then some tool_end
    else if str_eq s "turn_end"
    then some turn_end
    else if str_eq s "notification"
    then some notification
    else none

pub record SessionState : Type 0 where
  pub revision : ℕ  -- uint64
  pub session_id : String
  pub agent : String
  pub created_at : Time
  pub updated_at : Time
  pub last_event : Option Event
  pub last_tool : String
  pub working : Bool
  pub turn_count : ℕ
  pub events_seen : ℕ
  pub last_prompt_submit_at : Time
  pub last_turn_end_at : Time
  pub turn_contract : Option TurnContract

-- &SessionState{}
unfoldable pub zero_state : SessionState
zero_state = record {
  revision = 0;
  session_id = "";
  agent = "";
  created_at = 0;
  updated_at = 0;
  last_event = none;
  last_tool = "";
  working = false;
  turn_count = 0;
  events_seen = 0;
  last_prompt_submit_at = 0;
  last_turn_end_at = 0;
  turn_contract = none;
}

pub data Document : Type 0 where
  missing corrupt : Document
  stored : SessionState → Document

pub data Error : Type 0 where
  invalid_session_id unknown_event goal_required snapshot_required stale_goal : Error
  revision_exhausted unverified_history : Error

pub data Result {ℓ} (A : Type ℓ) : Type ℓ where
  ok : A → Result A
  err : Error → Result A

infixl 5 ◌>>=◌
abbrev pub ◌>>=◌ {ℓ κ} : {A : Type ℓ} {B : Type κ} → Result A → (A → Result B) → Result B
ok a >>= f = f a
err e >>= f = err e

-- sessionIDRe, `^[A-Za-z0-9._-]+$`
unfoldable pub is_id_char : ℕ → Bool
is_id_char c =
    leb b'a' c && leb c b'z'
    || (leb b'A' c && leb c b'Z'
        || (leb b'0' c && leb c b'9' || (c == b'.' || (c == b'_' || c == b'-'))))

unfoldable pub is_session_id : String → Bool
unfolding is_id_char
is_session_id s = not (text_eq (codes s) []) && all is_id_char (codes s)

-- What a writer starts from: a missing or corrupt file gives the zero state.
unfoldable pub read_state : Document → SessionState
unfolding zero_state
read_state missing = zero_state
read_state corrupt = zero_state
read_state (stored st) = st

abbrev pub max_uint64 : ℕ
max_uint64 = 18446744073709551615

-- The revision check and the write.
unfoldable pub commit : SessionState → Result Document
commit st =
    if st.revision == max_uint64
    then err revision_exhausted
    else ok (stored (record st { revision = st.revision + 1 }))

-- mutateSessionStateChecked. An error leaves the file as it was.
unfoldable pub mutate_session_state_checked :
    String → (SessionState → Result SessionState) → Document → Result Document
unfolding is_session_id read_state commit
mutate_session_state_checked session_id mutate d =
    if not (is_session_id session_id)
    then err invalid_session_id
    else mutate (read_state d) >>= commit

unfoldable pub mutate_session_state :
    String → (SessionState → SessionState) → Document → Result Document
unfolding mutate_session_state_checked
mutate_session_state session_id mutate =
    mutate_session_state_checked session_id (λ st. ok (mutate st))
